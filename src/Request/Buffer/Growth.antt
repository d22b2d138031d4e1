-- ===== src/Request/Buffer/Growth.antt =====
-- The socket buffer as a growing byte string.
use apiserver_asymetric_encr.Base.{
  length, take, drop, length-append, length-take, length-drop, length-replicate, take-length_append,
  take-append_le, take-length_self, pos, size_mod, add_size, ℕ, suc, ◌+◌, ◌-◌, ◌*◌, ◌%◌, ◌^◌, ◌≤◌,
  ◌<◌, min, max, ◌≡◌, refl, sym, ap, ◌∙◌, ◌↔◌, ◌⊎◌, inl, inr, Option, none, some, ◌∷◌, ◌++◌, arith,
}
use apiserver_asymetric_encr.Text.{Bytes, zeros}
use apiserver_asymetric_encr.Request.Buffer.{
  SocketBuffer, chunk_size, new_buffer, available_size, view, store, resize, BufferError,
  max_size_reached, update_pos,
}

length-zeros : (n : ℕ) → length (zeros n) ≡ n
length-zeros n = length-replicate n 0

-- The bytes in use lie in the vector, and the vector is small enough for 64-bit arithmetic.
pub record IsValid (max_size : ℕ) (b : SocketBuffer) : Type 0 where
  pub sized : max chunk_size max_size < 2 ^ 61
  pub inside : b.filled ≤ length b.buffer
  pub bounded : length b.buffer ≤ max chunk_size max_size
  pub nonempty : 0 < length b.buffer

pub new_buffer-IsValid : (max_size : ℕ) → max_size < 2 ^ 61 → IsValid max_size new_buffer
unfolding new_buffer
new_buffer-IsValid max_size h = record {
  sized = omega arith;
  inside = omega arith;
  bounded = omega (arith, length-zeros chunk_size);
  nonempty = omega (arith, length-zeros chunk_size);
}

length-store :
    (b : SocketBuffer) (chunk : Bytes)
    → b.filled + length chunk ≤ length b.buffer
    → length (store b chunk).buffer ≡ length b.buffer
unfolding store
length-store b chunk h = omega (
  arith,
  length-append (take b.filled b.buffer) (chunk ++ drop (b.filled + length chunk) b.buffer),
  length-append chunk (drop (b.filled + length chunk) b.buffer),
  length-take b.filled b.buffer,
  length-drop (b.filled + length chunk) b.buffer,
)

length-resize : (s : Bytes) (n : ℕ) → length s ≤ n → length (resize s n) ≡ n
unfolding resize
length-resize s n h =
    omega (arith, length-append s (zeros (n - length s)), length-zeros (n - length s))

-- A read of `chunk` and the `update_pos` that reports it, as `handle_socket_read` makes them.
abbrev pub receive : ℕ → SocketBuffer → Bytes → SocketBuffer × Option BufferError
receive max_size b chunk = update_pos max_size (pos (length chunk)) (store b chunk)

-- What `update_pos` does to a buffer whose vector is small enough.
update_pos_cases :
    (max_size n : ℕ) (b : SocketBuffer)
    → length b.buffer < 2 ^ 61
    → b.filled + suc n ≤ length b.buffer
    → let r = update_pos max_size (pos (suc n)) b in
      let moved : SocketBuffer = record b { filled = b.filled + suc n } in
      ((4 * (b.filled + suc n) ≤ 3 * length b.buffer) × (r ≡ (moved, none)))
      ⊎ ((3 * length b.buffer < 4 * (b.filled + suc n))
          × (max_size ≤ length b.buffer)
          × (r ≡ (moved, some (max_size_reached max_size))))
      ⊎ ((3 * length b.buffer < 4 * (b.filled + suc n))
          × (length b.buffer < max_size)
          × (r ≡ (
            record moved { buffer = resize b.buffer (min (length b.buffer * 2) max_size) },
            none,
          )))
unfolding update_pos
update_pos_cases max_size n b small fits =
    let moved : add_size b.filled (suc n) ≡ b.filled + suc n = omega arith in
    let used : ((b.filled + suc n) * 4) % size_mod ≡ (b.filled + suc n) * 4 = omega arith in
    let room : (length b.buffer * 3) % size_mod ≡ length b.buffer * 3 = omega arith in
    let twice : (length b.buffer * 2) % size_mod ≡ length b.buffer * 2 = omega arith in
    rw (moved, used, room, twice) (ground arith)

view-store :
    (b : SocketBuffer) (chunk : Bytes)
    → b.filled + length chunk ≤ length b.buffer
    → take (b.filled + length chunk) (store b chunk).buffer ≡ view b ++ chunk
unfolding store view
view-store b chunk h =
    let front : length (take b.filled b.buffer) ≡ b.filled =
      omega (arith, length-take b.filled b.buffer) in
    let behind = drop (b.filled + length chunk) b.buffer in
    ap (λ k. take (k + length chunk) (take b.filled b.buffer ++ (chunk ++ behind))) (sym front)
    ∙ take-length_append (take b.filled b.buffer) (chunk ++ behind) (length chunk)
    ∙ ap (◌++◌ (take b.filled b.buffer)) (take-length_self chunk behind)

module _ (max_size : ℕ) (b : SocketBuffer) (c : ℕ) (cs : Bytes) (v : IsValid max_size b)
    (fits : length (c ∷ cs) ≤ available_size b) where
  room : b.filled + length (c ∷ cs) ≤ length b.buffer
  unfolding available_size
  room = omega (arith, v.inside, v.bounded, v.sized)

  stored : length (store b (c ∷ cs)).buffer ≡ length b.buffer
  stored = length-store b (c ∷ cs) room

  view-resized :
      (n : ℕ)
      → take (b.filled + length (c ∷ cs)) (resize (store b (c ∷ cs)).buffer n) ≡ view b ++ c ∷ cs
  unfolding resize
  view-resized n =
      let at = store b (c ∷ cs) in
      take-append_le (b.filled + length (c ∷ cs)) at.buffer (zeros (n - length at.buffer))
        (omega (arith, stored, room))
      ∙ view-store b (c ∷ cs) room

-- What a read leaves: the vector is well formed, and the view has grown by exactly the bytes read.
pub record Received (max_size : ℕ) (b : SocketBuffer) (chunk : Bytes)
    (r : SocketBuffer × Option BufferError) : Type 0 where
  pub valid : IsValid max_size r.0
  pub appended : view r.0 ≡ view b ++ chunk
  pub room_left : r.1 ≡ none → 0 < available_size r.0
  pub failed_iff :
      (r.1 ≡ some (max_size_reached max_size))
      ↔ ((3 * length b.buffer < 4 * (b.filled + length chunk)) × (max_size ≤ length b.buffer))

-- A read of a non-empty chunk that fits in the free span of a well-formed buffer leaves a well-
-- formed buffer whose view has grown by exactly the chunk, with free space left unless it fails;
-- and it fails exactly when the buffer was at its greatest size and is more than three quarters
-- full.
pub receive-Received :
    (max_size : ℕ) (b : SocketBuffer) (c : ℕ) (cs : Bytes)
    → IsValid max_size b
    → length (c ∷ cs) ≤ available_size b
    → Received max_size b (c ∷ cs) (receive max_size b (c ∷ cs))
unfolding available_size view store
receive-Received max_size b c cs v fits =
    let at = store b (c ∷ cs) in
    let in_room = room max_size b c cs v fits in
    let len = stored max_size b c cs v fits in
    let seen = view-store b (c ∷ cs) in_room in
    let doubled = min (length at.buffer * 2) max_size in
    let grown = view-resized max_size b c cs v fits doubled in
    let size_grown = length-resize at.buffer doubled in
    let small : length at.buffer < 2 ^ 61 = omega (arith, len, v.sized, v.bounded) in
    let enough : b.filled + suc (length cs) ≤ length at.buffer = omega (arith, len) in
    elim (update_pos_cases max_size (length cs) at small enough) [
      | inl (low, e) ↦ rw e (record {
        valid = record {
          sized = v.sized;
          inside = enough;
          bounded = omega (arith, len, v.bounded);
          nonempty = omega (arith, len, v.nonempty);
        };
        appended = seen;
        room_left = λ _. omega (arith, low, small);
        failed_iff = (λ h. cc, λ h. absurd (omega (arith, h.0, low, len)));
      })
      | inr (inl (high, full, e)) ↦ rw e (record {
        valid = record {
          sized = v.sized;
          inside = enough;
          bounded = omega (arith, len, v.bounded);
          nonempty = omega (arith, len, v.nonempty);
        };
        appended = seen;
        room_left = λ h. cc;
        failed_iff = (λ _. (omega (arith, high, len), omega (arith, full, len)), λ _. refl);
      })
      | inr (inr (high, free, e)) ↦ rw e (record {
        valid = record {
          sized = v.sized;
          inside = omega (arith, size_grown);
          bounded = omega (arith, size_grown, v.bounded);
          nonempty = omega (arith, size_grown, v.nonempty, len);
        };
        appended = grown;
        room_left = λ _. omega (arith, size_grown, small, enough, free, len, v.nonempty, v.sized);
        failed_iff = (λ h. cc, λ h. absurd (omega (arith, h.1, free, len)));
      })
    ]
