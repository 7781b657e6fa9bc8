-- ===== src/Envelope/Tests.antt =====
-- An envelope at concrete keys, with a cipher that only marks its output.
use diarion_core.Prelude.{◌≡◌, refl, some, [], ◌∷◌, ◌++◌, replicate, drop, length, Bytes, arith}
use diarion_core.Prelude.Result.{ok, err}
use diarion_core.Envelope.{Aead, wrap, unwrap, new_gcm, format, master_key_len}
use diarion_core.Envelope.RoundTrip.{Opened, unwrap-wrap, unwrap-Opened}

abbrev marking : Aead
marking = record {
  seal = λ key nonce plain. replicate 16 7 ++ plain;
  unseal = λ key nonce sealed. some (drop 16 sealed);
  unseal-seal = λ key nonce plain. refl;
  length-seal = λ key nonce plain. omega arith;
}

abbrev master : Bytes
master = replicate 32 1

abbrev wrapped_example : Bytes
wrapped_example =
    1
    ∷ (replicate 12 3
        ++ ((replicate 16 7 ++ replicate 32 2)
            ++ (replicate 12 4 ++ (replicate 16 7 ++ 5 ∷ 6 ∷ []))))

opens : unwrap marking master wrapped_example ≡ ok (5 ∷ 6 ∷ [])
unfolding unwrap new_gcm
opens = refl

refusals :
    (unwrap marking (replicate 31 1) wrapped_example ≡ err master_key_len)
    × (unwrap marking master (1 ∷ []) ≡ err format)
    × (unwrap marking master (2 ∷ replicate 90 0) ≡ err format)
unfolding unwrap
refusals = (refl, refl, refl)

unwrap-wrap_example :
    (env : Bytes) × (wrap marking master
        (5 ∷ 6 ∷ [])
        (some (replicate 32 2))
        (some (replicate 12 3))
        (some (replicate 12 4))
      ≡ ok env)
    × (length env ≡ 91)
    × (unwrap marking master env ≡ ok (5 ∷ 6 ∷ []))
unwrap-wrap_example =
    unwrap-wrap marking master (replicate 32 2) (replicate 12 3) (replicate 12 4) (5 ∷ 6 ∷ []) refl
      refl refl refl

unwrap-Opened_example : Opened marking master wrapped_example (5 ∷ 6 ∷ [])
unwrap-Opened_example = unwrap-Opened marking master wrapped_example (5 ∷ 6 ∷ []) opens
