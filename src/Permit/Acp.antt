-- ===== src/Permit/Acp.antt =====
-- src/permit.rs: the wire form of an ACP, its errors, and the parsing into the contract's struct.
use teecryptor.Prelude.{
  ℕ, ◌+◌, ◌-◌, Bool, true, false, ◌||◌, List, [], ◌∷◌, ◌++◌, String, Result, ok, err, ◌>>=◌,
  map_err, ltb, if◌then◌else◌, length, replicate, Bytes, strip_prefix, unwrap_or, lower_0x,
  eq_bytes,
}
use teecryptor.External.Hex.{Hex}
use teecryptor.External.Bignum.{be_value_from}

-- Strings are their bytes. `revoker_data` and the signatures have been read by serde.
pub record AcpData : Type 0 where
  pub issuer : Bytes
  pub expiration : ℕ
  pub recipient : Bytes
  pub revoker_data : ℕ
  pub revoker_contract : Bytes
  pub scope : ℕ
  pub contracts : List Bytes
  pub handles : List Bytes
  pub sealing_key : Bytes
  pub issuer_signature : Bytes
  pub recipient_signature : Bytes

-- The contract's struct: addresses and `bytes32` values as the numbers that they spell.
pub record Acp : Type 0 where
  pub issuer : ℕ
  pub expiration : ℕ
  pub recipient : ℕ
  pub revoker_data : ℕ
  pub revoker_contract : ℕ
  pub scope : ℕ
  pub contracts : List ℕ
  pub handles : List ℕ
  pub sealing_key : ℕ
  pub issuer_signature : Bytes
  pub recipient_signature : Bytes

-- The label in a message, and the message of `Malformed` with what it reports.
pub data Label : Type 0 where
  label : String → Label
  label_at : String → ℕ → Label

pub data Malformed : Type 0 where
  address : Label → String → Malformed
  too_long : Label → ℕ → Malformed
  bad_hex : Label → String → Malformed
  too_many : String → ℕ → Malformed
  signature : String → Malformed

pub data AcpError : Type 0 where
  malformed : Malformed → AcpError
  denied : AcpError
  expired : AcpError
  bad_signature : AcpError
  unknown_chain : ℕ → AcpError
  misconfigured : String → AcpError
  timeout : ℕ → AcpError
  transport : String → AcpError

abbrev pub max_scope_entries : ℕ
max_scope_entries = 256

abbrev pub is_empty : Bytes → Bool
is_empty [] = true
is_empty (c ∷ cs) = false

abbrev pub strip_0x : Bytes → Bytes
strip_0x s = unwrap_or (strip_prefix lower_0x s) s

-- `format!("{stripped:0>64}")`
abbrev pub pad_64 : Bytes → Bytes
pad_64 s = replicate (64 - length s) b'0' ++ s

-- `hex` decodes, and alloy's `str::parse::<Address>` reads an address.
module _ (hex : Hex) (parse_address : Bytes → Result String ℕ) where
  unfoldable pub parse_addr : Label → Bytes → Result AcpError ℕ
  parse_addr l s =
      if is_empty (strip_0x s)
      then ok 0
      else map_err (λ e. malformed (address l e)) (parse_address s)

  -- `parse_b32` behind the prefix
  unfoldable pub parse_b32_digits : Label → Bytes → Result AcpError ℕ
  parse_b32_digits l stripped =
      if is_empty stripped || eq_bytes stripped (b'0' ∷ [])
      then ok 0
      else if ltb 64 (length stripped)
      then err (malformed (too_long l (length stripped)))
      else map_err (λ e. malformed (bad_hex l e)) (hex.decode (pad_64 stripped)) >>= λ bytes.
          ok (be_value_from 0 bytes)

  unfoldable pub parse_b32 : Label → Bytes → Result AcpError ℕ
  unfolding parse_b32_digits
  parse_b32 l s = parse_b32_digits l (strip_0x s)

  -- `iter().enumerate().map(..).collect::<Result<Vec<_>, _>>()?`
  unfoldable pub parse_all :
      (Label → Bytes → Result AcpError ℕ) → String → ℕ → List Bytes → Result AcpError (List ℕ)
  parse_all parse name i [] = ok []
  parse_all parse name i (s ∷ ss) = do
    v ← parse (label_at name i) s
    vs ← parse_all parse name (i + 1) ss
    ok (v ∷ vs)

  -- The fields behind the bounds on the two arrays.
  unfoldable pub build_acp : AcpData → Result AcpError Acp
  build_acp p = do
    contracts ← parse_all parse_addr "contracts" 0 p.contracts
    handles ← parse_all parse_b32 "handles" 0 p.handles
    issuer ← parse_addr (label "issuer") p.issuer
    recipient ← parse_addr (label "recipient") p.recipient
    revoker_contract ← parse_addr (label "revokerContract") p.revoker_contract
    sealing_key ← parse_b32 (label "sealingKey") p.sealing_key
    ok (record {
      issuer = issuer;
      expiration = p.expiration;
      recipient = recipient;
      revoker_data = p.revoker_data;
      revoker_contract = revoker_contract;
      scope = p.scope;
      contracts = contracts;
      handles = handles;
      sealing_key = sealing_key;
      issuer_signature = p.issuer_signature;
      recipient_signature = p.recipient_signature;
    })

  unfoldable pub try_from : AcpData → Result AcpError Acp
  try_from p =
      if ltb max_scope_entries (length p.contracts)
      then err (malformed (too_many "contracts" (length p.contracts)))
      else if ltb max_scope_entries (length p.handles)
      then err (malformed (too_many "handles" (length p.handles)))
      else build_acp p
