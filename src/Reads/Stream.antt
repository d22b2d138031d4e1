-- ===== src/Reads/Stream.antt =====
-- What has been read is the stream, however it comes in pieces.
use mathlib.Core.List.{append_assoc}
use apiserver_asymetric_encr.Base.{
  ◌==◌, Option-cases, length, length-append, length-take, ℤ, pos, negsuc, ℕ, zero, suc, ◌*◌, ◌≤◌,
  ◌<◌, ◌≡◌, refl, sym, ap, ◌∙◌, subst, ◌⊎◌, inl, inr, false, none, some, List, [], ◌∷◌, ◌++◌, map,
  arith,
}
use apiserver_asymetric_encr.Text.{Bytes}
use apiserver_asymetric_encr.Request.Model.{Parser}
use apiserver_asymetric_encr.Request.Buffer.{
  SocketBuffer, available_size, view, store, BufferError, max_size_reached, update_pos,
}
use apiserver_asymetric_encr.Request.Buffer.Growth.{IsValid, receive, receive-Received}
use apiserver_asymetric_encr.Request.Eof.{receive_bytes}
use apiserver_asymetric_encr.Reads.{ReadResult, read_bytes, stays, closed, handle_socket_read}

abbrev pub concat : List Bytes → Bytes
concat [] = []
concat (c ∷ cs) = c ++ concat cs

-- Each piece fits in the span that the kernel is given, and is not empty.
abbrev pub Fits : {J : Type 0} → ℕ → List Bytes → Parser J → Type 0
Fits max_size [] p = Unit
Fits max_size (chunk ∷ rest) p =
    (0 < length chunk)
    × (length chunk ≤ available_size p.buffer)
    × Fits max_size rest (receive_bytes max_size chunk p).0

append_nil : {A : Type 0} (xs : List A) → xs ++ [] ≡ xs
append_nil [] = refl
append_nil (x ∷ xs) = rw (append_nil xs) refl

length-view : {max_size : ℕ} (b : SocketBuffer) → IsValid max_size b → length (view b) ≡ b.filled
unfolding view
length-view b v = omega (arith, length-take b.filled b.buffer, v.inside)

update_pos_error :
    (max_size : ℕ) (n : ℤ) (b : SocketBuffer) (err : BufferError)
    → (update_pos max_size n b).1 ≡ some err
    → err ≡ max_size_reached max_size
unfolding update_pos
update_pos_error max_size (negsuc n) b err h = cc
update_pos_error max_size (pos zero) b err h = cc
update_pos_error max_size (pos (suc n)) b err h = ground arith

receive_error :
    (max_size : ℕ) (b : SocketBuffer) (chunk : Bytes) (err : BufferError)
    → (receive max_size b chunk).1 ≡ some err
    → err ≡ max_size_reached max_size
receive_error max_size b chunk err h =
    update_pos_error max_size (pos (length chunk)) (store b chunk) err h

module _ {J : Type 0} where
  receive_bytes_open :
      (max_size : ℕ) (chunk : Bytes) (p : Parser J)
      → p.is_finalized ≡ false
      → receive_bytes max_size chunk p ≡ (
        record p { buffer = (receive max_size p.buffer chunk).0 },
        (receive max_size p.buffer chunk).1,
      )
  unfolding receive_bytes
  receive_bytes_open max_size chunk p e = ground arith

  read_chunk :
      (max_size : ℕ) (chunk : Bytes) (rest : List ReadResult) (p : Parser J)
      → 0 < available_size p.buffer
      → (receive_bytes max_size chunk p).1 ≡ none
      → handle_socket_read max_size (read_bytes chunk ∷ rest) p
        ≡ handle_socket_read max_size rest (receive_bytes max_size chunk p).0
  unfolding handle_socket_read
  read_chunk max_size chunk rest p room e =
      let some_room : (available_size p.buffer == 0) ≡ false = ground arith in
      rw some_room (rw e refl)

  read_full :
      (max_size : ℕ) (chunk : Bytes) (rest : List ReadResult) (p : Parser J) (err : BufferError)
      → 0 < available_size p.buffer
      → (receive_bytes max_size chunk p).1 ≡ some err
      → handle_socket_read max_size (read_bytes chunk ∷ rest) p ≡ closed
  unfolding handle_socket_read
  read_full max_size chunk rest p err room e =
      let some_room : (available_size p.buffer == 0) ≡ false = ground arith in
      rw some_room (rw e refl)

  read_nothing :
      (max_size : ℕ) (p : Parser J)
      → 0 < available_size p.buffer
      → handle_socket_read max_size [] p ≡ stays p false
  unfolding handle_socket_read
  read_nothing max_size p room =
      let some_room : (available_size p.buffer == 0) ≡ false = ground arith in rw some_room refl

  -- From an open parser with room in a well-formed buffer, the loop over non-empty pieces that fit
  -- in the span that is free ends with the connection open and the pieces, put together, behind
  -- what was read before, and room for more; or the connection is closed because more than three
  -- quarters of the greatest size have come.
  pub handle_socket_read_stream :
      (max_size : ℕ) (chunks : List Bytes) (p : Parser J)
      → IsValid max_size p.buffer
      → 0 < available_size p.buffer
      → p.is_finalized ≡ false
      → Fits max_size chunks p
      → ((q : Parser J) × (handle_socket_read max_size (map read_bytes chunks) p ≡ stays q false)
          × (view q.buffer ≡ view p.buffer ++ concat chunks)
          × IsValid max_size q.buffer
          × (0 < available_size q.buffer))
        ⊎ ((handle_socket_read max_size (map read_bytes chunks) p ≡ closed)
            × (3 * max_size < 4 * (length (view p.buffer ++ concat chunks))))
  handle_socket_read_stream max_size [] p v room open_ fits =
      inl (p, read_nothing max_size p room, sym (append_nil (view p.buffer)), v, room)
  handle_socket_read_stream max_size ([] ∷ rest) p v room open_ fits =
      absurd (omega (arith, fits.0))
  handle_socket_read_stream max_size ((c ∷ cs) ∷ rest) p v room open_ fits =
      let got = receive-Received max_size p.buffer c cs v fits.1 in
      let q : Parser J = (receive_bytes max_size (c ∷ cs) p).0 in
      let run = receive_bytes_open max_size (c ∷ cs) p open_ in
      let at_buffer : q.buffer ≡ (receive max_size p.buffer (c ∷ cs)).0 =
        ap (λ r. r.0.buffer) run in
      let same_error = ap (λ r. r.1) run in
      let longer : view p.buffer ++ (c ∷ cs) ++ concat rest
          ≡ view p.buffer ++ ((c ∷ cs) ++ concat rest) =
        append_assoc (view p.buffer) (c ∷ cs) (concat rest) in
      let grown : view q.buffer ++ concat rest ≡ view p.buffer ++ ((c ∷ cs) ++ concat rest) =
        ap (λ b. view b ++ concat rest) at_buffer
        ∙ ap (λ s. s ++ concat rest) got.appended
        ∙ longer in
      elim (Option-cases (receive_bytes max_size (c ∷ cs) p).1) [
        | inl e ↦
            let step = read_chunk max_size (c ∷ cs) (map read_bytes rest) p room e in
            let later =
              handle_socket_read_stream max_size rest q
                (subst (IsValid max_size) (sym at_buffer) got.valid)
                (subst (λ b. 0 < available_size b) (sym at_buffer)
                  (got.room_left (sym same_error ∙ e)))
                (ap (λ r. r.0.is_finalized) run ∙ open_) fits.2 in
            elim later [
              | inl (z, f, seen, valid, free) ↦ inl (z, step ∙ f, seen ∙ grown, valid, free)
              | inr (f, big) ↦ inr (step ∙ f, subst (λ s. 3 * max_size < 4 * length s) grown big)
            ]
        | inr (err, e) ↦
            let full = got.failed_iff.0 (
              sym same_error
              ∙ e
              ∙ ap some (receive_error max_size p.buffer (c ∷ cs) err (sym same_error ∙ e))) in
            inr (
              read_full max_size (c ∷ cs) (map read_bytes rest) p err room e,
              omega (
                arith,
                full,
                length-view p.buffer v,
                length-append (view p.buffer) ((c ∷ cs) ++ concat rest),
                length-append (c ∷ cs) (concat rest),
              ),
            )
      ]
