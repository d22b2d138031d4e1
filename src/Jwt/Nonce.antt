-- ===== src/Jwt/Nonce.antt =====
-- Which nonces the service accepts.
use apiserver_asymetric_encr.Base.{
  ◌==◌, Option-cases, take, drop, All, take-length_self, ◌+◌, ◌≡◌, refl, sym, ap, ◌∙◌, ◌↔◌, inl,
  inr, true, false, Option, ◌∷◌, ◌++◌, arith,
}
use apiserver_asymetric_encr.Text.{Bytes, same, find_if}
use apiserver_asymetric_encr.Jwt.{base64url_encode, verify_nonce}
use apiserver_asymetric_encr.Text.Search.{same_iff, find_if-take_none}
use apiserver_asymetric_encr.Text.Marks.{find_if-append, find_if-split, drop_behind}

module _ (encode_block : Bytes → Bytes) (read_base64 : Bytes → Option Bytes)
    (hmac : Bytes → Bytes → Bytes) (secret : Bytes) where
  -- A nonce is accepted exactly when it is a payload without a dot, a dot, and the base64url text
  -- of the payload's HMAC under the secret.
  pub verify_nonce_iff :
      (nonce : Bytes)
      → (verify_nonce encode_block read_base64 hmac secret nonce ≡ true) ↔ (
          (payload : Bytes) × All (λ c. (c == b'.') ≡ false) payload
          × (nonce
              ≡ payload
                ++ (b'.' ∷ base64url_encode encode_block read_base64 (hmac secret payload))))
  unfolding verify_nonce
  verify_nonce_iff nonce = (
    λ h. elim (Option-cases (find_if (λ c. c == b'.') nonce)) [
      | inl e ↦ absurd (ground arith)
      | inr (dot, e) ↦
          let payload = take dot nonce in
          let signature = base64url_encode encode_block read_base64 (hmac secret payload) in
          let checked : same signature (drop (dot + 1) nonce) ≡ true = ground arith in
          (
            payload,
            find_if-take_none (λ c. c == b'.') nonce dot e,
            find_if-split b'.' nonce dot e
                ∙ ap (λ (s : Bytes). payload ++ (b'.' ∷ s))
                    (sym ((same_iff signature (drop (dot + 1) nonce)).0 checked)),
          )
    ],
    λ (payload, plain, whole).
        let signature = base64url_encode encode_block read_base64 (hmac secret payload) in
        let found = find_if-append (λ c. c == b'.') payload signature b'.' plain refl in
        rw whole (
          rw (found, verify_nonce)
            (rw (take-length_self payload (b'.' ∷ signature), drop_behind payload b'.' signature)
              ((same_iff signature signature).1 refl))),
  )
