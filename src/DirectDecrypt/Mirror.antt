-- ===== src/DirectDecrypt/Mirror.antt =====
-- The serde mirrors of src/direct_decrypt.rs, its key, and the interface of the crate `tfhe`.
use teecryptor.Prelude.{
  ℕ, ◌*◌, ◌^◌, ◌<◌, ◌≡◌, Option, List, String, Result, Bytes, length, All, div_ceil,
}

-- tfhe's `PackedIntegers<u64>`, by its public accessors.
pub record PackedIntegers : Type 0 where
  pub packed_coeffs : List ℕ
  pub log_modulus : ℕ
  pub initial_len : ℕ

-- tfhe's `PBSOrder` and `AtomicPatternKind`.
pub data PbsOrder : Type 0 where
  keyswitch_bootstrap bootstrap_keyswitch : PbsOrder

pub data AtomicPatternKind : Type 0 where
  standard : PbsOrder → AtomicPatternKind
  key_switch32 : AtomicPatternKind

pub record ClassicMsCtMirror : Type 0 where
  pub packed_integers : PackedIntegers
  pub lwe_dimension : ℕ

pub data InternalMirror : Type 0 where
  classic : ClassicMsCtMirror → InternalMirror
  multi_bit : InternalMirror

pub record BlockMirror : Type 0 where
  pub compressed_modulus_switched_lwe_ciphertext : InternalMirror
  pub degree : ℕ
  pub message_modulus : ℕ
  pub carry_modulus : ℕ
  pub atomic_pattern : AtomicPatternKind

pub record GenericMirror : Type 0 where
  pub paired_blocks : List BlockMirror
  pub last_block : Option BlockMirror

pub data RadixMirror : Type 0 where
  seeded : RadixMirror
  modulus_switched : GenericMirror → RadixMirror

pub data InnerBoolMirror : Type 0 where
  seeded : InnerBoolMirror
  modulus_switched : BlockMirror → InnerBoolMirror

-- The tags are never read.
pub record UintMirror : Type 0 where
  pub ciphertext : RadixMirror

pub record BoolMirror : Type 0 where
  pub inner : InnerBoolMirror

-- `DirectDecryptKey`, with the small LWE secret key as its coefficients.
pub record DirectDecryptKey : Type 0 where
  pub small_lwe_key : List ℕ
  pub message_modulus : ℕ
  pub carry_modulus : ℕ

-- The packed words that `n` coefficients of `log` bits take.
abbrev pub HasPackedLen : PackedIntegers → Type 0
HasPackedLen p = length p.packed_coeffs ≡ div_ceil (p.initial_len * p.log_modulus) 64

-- What the program calls of `tfhe` and `bincode`. A value of type `Ct` is a deserialized ciphertext
-- of the class that the label names. `unpack` yields `initial_len` coefficients of `log_modulus`
-- bits from a packed structure of the right length.
pub record Tfhe (Ct : Type 0) : Type 0 where
  pub safe_deserialize : String → Bytes → ℕ → Result String Ct
  pub serialize : Ct → Result String Bytes
  pub deserialize_uint : Bytes → Result String UintMirror
  pub deserialize_bool : Bytes → Result String BoolMirror
  pub unpack : PackedIntegers → List ℕ
  pub length-unpack :
      (p : PackedIntegers)
      → 0 < p.log_modulus
      → p.log_modulus < 64
      → HasPackedLen p
      → length (unpack p) ≡ p.initial_len
  pub unpack-lt :
      (p : PackedIntegers)
      → 0 < p.log_modulus
      → p.log_modulus < 64
      → HasPackedLen p
      → All (λ c. c < 2 ^ p.log_modulus) (unpack p)
