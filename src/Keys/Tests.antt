-- ===== src/Keys/Tests.antt =====
-- Issuing keys at concrete values, with a cipher that only marks its output.
use diarion_core.Prelude.{◌≡◌, refl, inl, some, ◌++◌, replicate, arith, drop}
use diarion_core.Prelude.Result.{ok}
use diarion_core.Envelope.{Aead}
use diarion_core.Keys.{KeyPair, Issued, Randoms, issue, fingerprint, custody_managed}
use diarion_core.Keys.Custody.{Held, issue-Held}

abbrev marking : Aead
marking = record {
  seal = λ key nonce plain. replicate 16 9 ++ plain;
  unseal = λ key nonce sealed. some (drop 16 sealed);
  unseal-seal = λ key nonce plain. refl;
  length-seal = λ key nonce plain. omega arith;
}

abbrev pair : KeyPair
pair = record { public_key = replicate 32 1; private_key = replicate 64 2 }

abbrev good_randoms : Randoms
good_randoms = record {
  dek = some (replicate 32 3);
  kek_nonce = some (replicate 12 4);
  dek_nonce = some (replicate 12 5);
}

issue-Held_example :
    (i : Issued) × (issue marking (λ s. s) (replicate 32 8) custody_managed (some pair) good_randoms
      ≡ ok i)
    × (i.fingerprint ≡ fingerprint marking (λ s. s) (replicate 32 1))
    × Held marking (λ s. s) (replicate 32 8) custody_managed pair i
issue-Held_example =
    issue-Held marking (λ s. s) (replicate 32 8) custody_managed (replicate 32 3) (replicate 12 4)
      (replicate 12 5) pair (inl refl) refl refl refl refl refl
