-- ===== src/Request/Model/Chain.antt =====
-- Chains of parsing functions.
use apiserver_asymetric_encr.Base.{◌≡◌, none, some, arith}
use apiserver_asymetric_encr.Request.Model.{ParseError, Parser, Parse, ◌>>◌}

module _ {J : Type 0} (first second : Parse J) (p : Parser J) where
  -- A chain that succeeds ran its first part with success, and then its second.
  pub chain-none :
      ((first >> second) p).1 ≡ none
      → ((first p).1 ≡ none) × ((first >> second) p ≡ second (first p).0)
  chain-none h = ground arith

  -- An error of the first part ends the chain.
  pub chain-some :
      (e : ParseError) → (first p).1 ≡ some e → (first >> second) p ≡ ((first p).0, some e)
  chain-some e h = ground arith

-- A parsing function that succeeds, taken apart.
pub pair_eta :
    {J : Type 0} (first : Parse J) (p : Parser J)
    → (first p).1 ≡ none
    → first p ≡ ((first p).0, none)
pair_eta first p h = ground arith
