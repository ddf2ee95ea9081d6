-- ===== src/Signing/Tests.antt =====
-- A signer over small numbers, and the theorems at it.
use teecryptor.Prelude.{
  ℕ, ◌+◌, ◌≡◌, refl, Bool, true, false, Option, none, some, [], ◌∷◌, replicate, arith, ok, leb,
  if◌then◌else◌, pos, Bytes,
}
use teecryptor.External.Samples.{sample_big}
use teecryptor.Signing.{
  raw, evm, convert_v, from_str, parse_v_format, K256, xor, sign_prehash, SigningService,
}
use teecryptor.Signing.Laws.{decrypt_preimage_inj, seal_preimage_inj, sign_prehash-low}

abbrev pub high : ℕ → Bool
high s = leb 100 s

abbrev pub normal : ℕ → Option ℕ
normal s = if high s then some 1 else none

pub normal-low : (s t : ℕ) → normal s ≡ some t → high t ≡ false
normal-low s t e = ground arith

pub normal-none : (s : ℕ) → normal s ≡ none → high s ≡ false
normal-none s e = ground arith

-- A recovery id is its two flags; every hash is signed with 150.
abbrev pub k256 : K256 ℕ (Bool × Bool)
k256 = record {
  sign_prehash = λ hash. ok (150, (false, false));
  is_high = high;
  normalize_s = normal;
  to_bytes = λ s. replicate 64 s;
  is_y_odd = λ r. r.0;
  is_x_reduced = λ r. r.1;
  new = λ y x. (y, x);
  to_byte = λ r. (if r.0 then 1 else 0) + (if r.1 then 2 else 0);
  normalize_s-low = normal-low;
  normalize_s-none = normal-none;
  is_y_odd-new = λ y x. refl;
}

abbrev pub service : SigningService ℕ (Bool × Bool)
service = record {
  k256 = k256;
  evm_address = b'0' ∷ b'x' ∷ [];
  keccak256 = λ bytes. replicate 32 0;
  hex_encode = λ bytes. bytes;
}

sign_run : sign_prehash k256 [] ≡ ok (1, (true, false))
unfolding sign_prehash
sign_run = refl

format_run :
    (parse_v_format (some (b'E' ∷ b'v' ∷ b'M' ∷ [])) ≡ evm)
    × (parse_v_format none ≡ raw)
    × (convert_v evm 1 ≡ 28)
unfolding parse_v_format from_str convert_v
format_run = (refl, refl, refl)

sign_prehash-low_example :
    (k256.is_high 1 ≡ false)
    × ((s : ℕ) × (r : Bool × Bool) × (k256.sign_prehash [] ≡ ok (s, r))
        × (true ≡ xor (k256.is_y_odd r) (k256.is_high s)))
sign_prehash-low_example = sign_prehash-low k256 [] 1 (true, false) sign_run

-- the canonical handle of both
abbrev hash : Bytes
hash = replicate 32 b'a'

abbrev one : Bytes
one = 1 ∷ []

abbrev two : Bytes
two = 2 ∷ []

abbrev three : Bytes
three = 3 ∷ []

decrypt_preimage_inj_example :
    (◌≡◌ {A = ℕ} 9 9) × (pos 2 ≡ pos 2) × (◌≡◌ {A = ℕ} 1 1) × (hash ≡ hash)
decrypt_preimage_inj_example =
    decrypt_preimage_inj sample_big 9 9 (pos 2) (pos 2) 1 1 hash hash (omega arith) (omega arith)
      (omega arith) (omega arith) (omega arith) (omega arith) refl

seal_preimage_inj_example :
    (one ≡ one)
    × (two ≡ two)
    × (three ≡ three)
    × (pos 2 ≡ pos 2)
    × (◌≡◌ {A = ℕ} 1 1)
    × (hash ≡ hash)
seal_preimage_inj_example =
    seal_preimage_inj one one two two three three (pos 2) (pos 2) 1 1 hash hash refl refl refl
      (omega arith) (omega arith) (omega arith) (omega arith) refl
