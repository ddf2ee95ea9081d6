-- ===== src/Http/Tests.antt =====
-- A service over toy instances that serves one handle, runs of it, and the theorems at it.
use teecryptor.Prelude.{
  ◌≡◌, refl, ◌⊎◌, ◌↔◌, true, false, none, some, [], ◌∷◌, ◌++◌, replicate, arith, ok, err, pos, ◌==◌,
  if◌then◌else◌, Bytes, lower_0x, eq_bytes, trailing_zeros, is_power_of_two,
}
use teecryptor.Http.Decision.{decisions}
use teecryptor.Http.AgreeHandlers.{run_decrypt-decisions, run_sealoutput-decisions}
use teecryptor.External.AssocLru.{assoc_lru}
use teecryptor.External.Bignum.{be_value_from}
use teecryptor.External.Hex.{digit_value}
use teecryptor.External.Rpc.{elapsed, returned}
use teecryptor.External.Samples.{sample_big, sample_hex}
use teecryptor.Handle.{Handle, parse, digits_of, refused, canonical, handle_type, handle_zone}
use teecryptor.Decrypt.{u8, bits, from_i32, encode, width}
use teecryptor.DirectDecrypt.Tests.{key, toy}
use teecryptor.DirectDecrypt.Top.{
  to_mirror, switched_radix, decrypt_uint, decode_bool, decrypt_bool, decrypt_compressed,
}
use teecryptor.DirectDecrypt.Block.{
  check_block, check_packed, split_last, dot_from, phase, space_of, round_to, decode_block,
}
use teecryptor.DirectDecrypt.Radix.{
  paired_digits, last_digits, check_width, fold_digits, decode_radix,
}
use teecryptor.Permit.Verify.{get_chain, judge, verify_publicly_allowed, verify_via_taskmanager}
use teecryptor.Keys.{client_key, direct_key}
use teecryptor.Commitment.Cache.{Registry, settle, refresh_commitment, fetch_commitment}
use teecryptor.Commitment.Tests.{eq_key, eq_key_iff, Cache, cfg}
use teecryptor.Permit.Acp.{try_from, parse_addr, parse_b32, parse_b32_digits, parse_all, build_acp}
use teecryptor.Permit.Tests.{acp_data, read_address, chains, task_manager}
use teecryptor.CtSource.{
  answered, fetch, receive, open_envelope, check_status, check_declared, read_body,
}
use teecryptor.Seal.{DryocBox, seal_to_user}
use teecryptor.Signing.{
  sign_decrypt, sign_sealoutput, parse_v_format, parse_ct_hash, sign_preimage, sign_with_format,
  sign_prehash, convert_v, decrypt_preimage, seal_preimage, i32_be,
}
use teecryptor.Signing.Tests.{service}
use teecryptor.Http.Response.{v1, v2, ok_json, api_err, retryable, retryable_204, resolve_signature}
use teecryptor.Http.Bodies.{Request}
use teecryptor.Http.Gates.{
  reject_acp, acp_verdict, enforce_acp, commitment_verdict, enforce_commitment, compare, rejudge,
  enforce_commitment_integrity,
}
use teecryptor.Http.Fetch.{
  Deps, AppState, World, fetch_decrypt, acp_gate, gates, join_gates, commitment_gate,
  fetch_committed, fetch_row, check_envelope, check_integrity, decrypt_checked, check_zone,
  check_type, check_metadata, decrypt_with, decrypt_row, finish, reject_ct,
}
use teecryptor.Http.Handlers.{
  Decrypted, Sealed, parse_handle, sign_plaintext, require_acp, seal_plaintext, sign_sealed,
  reject_seal, run_decrypt, run_sealoutput,
}
use teecryptor.Http.Polls.{
  handle_decrypt_v2_submit, handle_decrypt_v2_status, handle_sealoutput_v2_submit,
  handle_sealoutput_v2_status,
}
use teecryptor.Http.Bodies.{V2DecryptSubmitResponse, V2SealOutputSubmitResponse, completed}
use teecryptor.Http.Polls.Laws.{handle_decrypt_v2_submit-status, handle_sealoutput_v2_submit-status}
use teecryptor.Http.FetchLaws.{IsAllowed}
use teecryptor.Http.Answered.{IsAnswered, fetch_decrypt-IsAnswered, fetch_decrypt-refused_alike}
use teecryptor.Http.Served.{IsServed}
use teecryptor.Http.Promise.{fetch_decrypt-IsServed}
use teecryptor.Http.Wire.{Refuses}
use teecryptor.Http.Wire.Requests.{fetch_decrypt-Refuses}

-- The hash of a row is its number behind a leading one.
abbrev pub dep : Deps Bytes Cache
dep = record {
  big = sample_big;
  hex = sample_hex;
  parse_address = read_address;
  tfhe = toy;
  lru = assoc_lru eq_key eq_key_iff;
  keccak256 = λ bytes. be_value_from 1 bytes;
  from_slice = λ raw. ok (record {
    bytes = b'0' ∷ b'x' ∷ b'0' ∷ b'7' ∷ [];
    uint_type = pos 2;
    security_zone = pos 0;
    compact = false;
    gzipped = true;
  });
}

-- A handle of the type 2 in zone 0.
abbrev pub handle : Handle
handle = record { hex = lower_0x ++ (replicate 61 b'0' ++ b'2' ∷ b'0' ∷ b'0' ∷ []); u256 = 512 }

abbrev pub state : AppState (Unit {0})
state = record {
  keys = record { zone_0 = tt; zone_0_direct = key };
  acp_verifier = some chains;
  commitment_verifier = some cfg;
}

abbrev registry : Registry
registry = record {
  get_commitment = λ version h. if h == 512 then returned 263 else returned 0;
  now = 10;
  later = 11;
}

abbrev pub world : World
world = record {
  admit_slots = 4;
  task_manager = task_manager;
  registry = registry;
  reread = registry;
  ct_server =
      λ h. answered (record { status = 200; content_length = none; chunks = ok (1 ∷ []) ∷ [] });
  join_error = none;
}

-- Another handle, which the TaskManager does not allow and the registry does not know.
abbrev other : Handle
other = record { hex = lower_0x ++ replicate 64 b'0'; u256 = 0 }

abbrev pub cold : Cache
cold = (2, [])

unfoldable pub runs : Unit {0}
unfolding fetch_decrypt acp_gate fetch receive open_envelope check_status check_declared read_body
    client_key direct_key from_i32 handle_type handle_zone digit_value decode_block check_block
    check_packed split_last dot_from phase space_of round_to decode_radix paired_digits last_digits
    check_width fold_digits trailing_zeros is_power_of_two to_mirror switched_radix decrypt_uint
    decode_bool decrypt_bool decrypt_compressed bits api_err retryable retryable_204 parse digits_of
    refused canonical get_chain judge verify_publicly_allowed gates join_gates enforce_acp
    acp_verdict reject_acp commitment_gate enforce_commitment commitment_verdict fetch_commitment
    refresh_commitment settle fetch_committed fetch_row check_envelope check_integrity
    enforce_commitment_integrity compare rejudge decrypt_checked check_zone check_type
    check_metadata decrypt_with decrypt_row finish reject_ct verify_via_taskmanager try_from
    parse_addr parse_b32 parse_b32_digits parse_all build_acp run_decrypt parse_handle
    sign_plaintext resolve_signature sign_decrypt parse_ct_hash sign_preimage sign_with_format
    sign_prehash parse_v_format convert_v decrypt_preimage i32_be run_sealoutput require_acp
    seal_plaintext sign_sealed seal_to_user reject_seal sign_sealoutput seal_preimage encode width
runs = tt

-- An unknown handle is refused for good, though its commitment would be worth waiting for.
refused_run :
    (fetch_decrypt dep state world {S = Unit {0}} v2 other 1 none cold).0
    ≡ err (api_err v2 403 "not_publicly_allowed")
unfolding runs
refused_run = refl

shed_run :
    (fetch_decrypt dep state
      (record world { admit_slots = 0 })
      {S = Unit {0}}
      v1
      handle
      1
      none
      cold).0
    ≡ err (api_err v1 503 "overloaded")
unfolding runs
shed_run = refl

tampered_run :
    (fetch_decrypt
      (record dep { keccak256 = λ bytes. 1 })
      state
      world
      {S = Unit {0}}
      v1
      handle
      1
      none
      cold).0
    ≡ err (api_err v1 502 "commitment_mismatch")
unfolding runs
tampered_run = refl

not_public :
    acp_gate dep world {S = Unit {0}} v2 (some chains) other 1 none
    ≡ some (api_err v2 403 "not_publicly_allowed")
unfolding runs
not_public = refl

fetch_decrypt-Refuses_example :
    Refuses v2 (fetch_decrypt dep state world {S = Unit {0}} v2 other 1 none cold).0
fetch_decrypt-Refuses_example =
    fetch_decrypt-Refuses dep state world (Unit {0}) v2 other 1 none cold

abbrev request : Request
request = record { ct_tempkey = handle.hex; host_chain_id = 1; acp = some acp_data }

-- The signer of the samples says 1 for every hash, with the recovery id 1.
abbrev signed : Bytes
signed = replicate 64 1 ++ 1 ∷ []

abbrev answer : Decrypted
answer = record {
  decrypted = replicate 31 0 ++ 9 ∷ [];
  signature = signed;
  encryption_type = pos 2;
}

abbrev dryoc : DryocBox
dryoc = record {
  ephemeral_public_key = 3 ∷ [];
  nonce = 4 ∷ [];
  encrypt_to_vecbox = λ plaintext pk. ok plaintext;
}

abbrev sealed : Sealed
sealed = record {
  sealed = record { bytes = 9 ∷ []; public_key = 3 ∷ []; nonce = 4 ∷ [] };
  signature = signed;
  encryption_type = pos 2;
}

unsealed_run :
    (run_sealoutput dep state
      (some service)
      world
      {S = Unit {0}}
      v1
      dryoc
      (ok (record request { acp = none }))
      none
      cold).0
    ≡ err (api_err v1 400 "acp_required")
unfolding runs
unsealed_run = refl

eq_bytes_iff : (a b : Bytes) → (eq_bytes a b ≡ true) ↔ (a ≡ b)
eq_bytes_iff [] [] = ground arith
eq_bytes_iff [] (y ∷ ys) = ground arith
eq_bytes_iff (x ∷ xs) [] = ground arith
eq_bytes_iff (x ∷ xs) (y ∷ ys) = ground (arith, eq_bytes_iff xs ys)

abbrev id : Bytes
id = b'i' ∷ []

handle_decrypt_v2_submit-status_example :
    (let polls = assoc_lru eq_bytes eq_bytes_iff in
      let (resp, cache', results') =
        handle_decrypt_v2_submit polls dep state
          (some service)
          world
          id
          id
          (ok request)
          none
          cold
          (1000, []) in
      ((d : Decrypted) × ((run_decrypt dep state
            (some service)
            world
            {S = V2DecryptSubmitResponse}
            v2
            (ok request)
            none
            cold).0
          ≡ ok d)
        × (resp
            ≡ ok_json (record {
              request_id = id;
              decrypted = some d.decrypted;
              signature = some d.signature;
              encryption_type = some d.encryption_type;
            }))
        × ((handle_decrypt_v2_status polls id results').0
            ≡ ok_json (record {
              request_id = id;
              status = completed;
              submitted_at = id;
              completed_at = some id;
              is_succeed = some true;
              decrypted = some d.decrypted;
              signature = some d.signature;
              encryption_type = some d.encryption_type;
              error_message = none;
            })))
      ⊎ (((run_decrypt dep state (some service) world v2 (ok request) none cold).0 ≡ err resp)
          × (results' ≡ (1000, []))))
handle_decrypt_v2_submit-status_example =
    handle_decrypt_v2_submit-status (assoc_lru eq_bytes eq_bytes_iff) dep state (some service) world
      id id (ok request) none cold (1000, [])

handle_sealoutput_v2_submit-status_example :
    (let polls = assoc_lru eq_bytes eq_bytes_iff in
      let (resp, cache', results') =
        handle_sealoutput_v2_submit polls dep state
          (some service)
          world
          dryoc
          id
          id
          (ok request)
          none
          cold
          (1000, []) in
      ((s : Sealed) × ((run_sealoutput dep state
            (some service)
            world
            {S = V2SealOutputSubmitResponse}
            v2
            dryoc
            (ok request)
            none
            cold).0
          ≡ ok s)
        × (resp
            ≡ ok_json (record {
              request_id = id;
              sealed_data = some s.sealed.bytes;
              ephemeral_public_key = some s.sealed.public_key;
              nonce = some s.sealed.nonce;
              signature = some s.signature;
              encryption_type = some s.encryption_type;
            }))
        × ((handle_sealoutput_v2_status polls id results').0
            ≡ ok_json (record {
              request_id = id;
              status = completed;
              submitted_at = id;
              completed_at = some id;
              is_succeed = some true;
              sealed = some (record {
                bytes = s.sealed.bytes;
                public_key = s.sealed.public_key;
                nonce = s.sealed.nonce;
              });
              signature = some s.signature;
              encryption_type = some s.encryption_type;
              error_message = none;
            })))
      ⊎ (((run_sealoutput dep state (some service) world v2 dryoc (ok request) none cold).0
            ≡ err resp)
          × (results' ≡ (1000, []))))
handle_sealoutput_v2_submit-status_example =
    handle_sealoutput_v2_submit-status (assoc_lru eq_bytes eq_bytes_iff) dep state (some service)
      world dryoc id id (ok request) none cold (1000, [])

fetch_decrypt-IsServed_example :
    ((fetch_decrypt dep state world {S = Unit {0}} v2 handle 1 none cold).0 ≡ ok (9, u8))
    ↔ IsServed dep state world handle 1 none cold 9 u8
fetch_decrypt-IsServed_example =
    fetch_decrypt-IsServed dep state world {S = Unit {0}} v2 handle 1 none cold 9 u8

run_decrypt-decisions_example :
    decisions (run_decrypt dep state (some service) world {S = Unit {0}} v1 (ok request) none cold)
    ≡ decisions
        (run_decrypt dep state (some service) world {S = Unit {0}} v2 (ok request) none cold)
run_decrypt-decisions_example =
    run_decrypt-decisions dep state (some service) world (Unit {0}) (ok request) none cold

run_sealoutput-decisions_example :
    decisions
      (run_sealoutput dep state (some service) world {S = Unit {0}} v1 dryoc (ok request) none cold)
    ≡ decisions (
        run_sealoutput dep state
          (some service)
          world
          {S = Unit {0}}
          v2
          dryoc
          (ok request)
          none
          cold)
run_sealoutput-decisions_example =
    run_sealoutput-decisions dep state (some service) world (Unit {0}) dryoc (ok request) none cold

presented :
    (fetch_decrypt dep state world {S = Unit {0}} v2 handle 1 (some acp_data) cold).0 ≡ ok (9, u8)
unfolding runs
presented = refl

fetch_decrypt-IsAnswered_example : IsAnswered dep world chains handle 1 (some acp_data)
fetch_decrypt-IsAnswered_example =
    fetch_decrypt-IsAnswered dep state world {S = Unit {0}} v2 chains handle 1 (some acp_data) cold
      9 u8 refl presented

other-IsAllowed : ¬ IsAllowed dep world chains other 1 none
unfolding runs
other-IsAllowed e = cc

-- A registry that cannot be reached, and a ct-server without the row.
abbrev silent : Registry
silent = record { get_commitment = λ version h. elapsed; now = 10; later = 11 }

fetch_decrypt-refused_alike_example :
    (fetch_decrypt dep state world {S = Unit {0}} v2 other 1 none cold).0
    ≡ (fetch_decrypt dep state
        (record world {
          registry = silent;
          reread = silent;
          ct_server = λ h. answered (record { status = 404; content_length = none; chunks = [] });
          join_error = some "gone";
        })
        {S = Unit {0}}
        v2
        other
        1
        none
        (3, [])).0
fetch_decrypt-refused_alike_example =
    fetch_decrypt-refused_alike dep state world {S = Unit {0}} v2 chains other 1 none cold (3, [])
      silent silent (λ h. answered (record { status = 404; content_length = none; chunks = [] }))
      (some "gone") refl other-IsAllowed
