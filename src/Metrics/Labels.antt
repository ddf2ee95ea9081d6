-- ===== src/Metrics/Labels.antt =====
-- src/metrics/decrypt.rs and src/metrics/http.rs: the labels of the samples; src/http.rs: what
-- `track_metrics` records for a response.
use text.Mathlib.Text.{◌==◌ as str_eq}
use teecryptor.Prelude.{
  ℕ, Bool, true, false, ◌&&◌, ◌||◌, Option, none, some, List, [], ◌∷◌, String, leb, ltb, ◌==◌,
  if◌then◌else◌, Bytes,
}
use teecryptor.Boot.Numbers.{to_string}
use teecryptor.Decrypt.{EncryptionType, as_str}

-- The value of a label: a constant of the source, or a number printed at the start.
pub data Label : Type 0 where
  static : String → Label
  rendered : Bytes → Label

-- The cells are written once: `none` is one that was not.
pub record DecryptLabels : Type 0 where
  pub host_chain_id : Option ℕ
  pub acp_presented : Option Bool
  pub encryption_type : Option EncryptionType

-- `DecryptLabels::default`
abbrev pub default_labels : DecryptLabels
default_labels = record { host_chain_id = none; acp_presented = none; encryption_type = none }

-- `OnceLock::get_or_init`
unfoldable pub get_or_init : {A : Type 0} → A → Option A → Option A
get_or_init a none = some a
get_or_init a (some first) = some first

unfoldable pub set_host_chain_id : ℕ → DecryptLabels → DecryptLabels
unfolding get_or_init
set_host_chain_id id l = record l { host_chain_id = get_or_init id l.host_chain_id }

unfoldable pub set_acp_presented : Bool → DecryptLabels → DecryptLabels
unfolding get_or_init
set_acp_presented presented l = record l { acp_presented = get_or_init presented l.acp_presented }

unfoldable pub set_encryption_type : EncryptionType → DecryptLabels → DecryptLabels
unfolding get_or_init
set_encryption_type ty l = record l { encryption_type = get_or_init ty l.encryption_type }

-- `ChainLabels::new`
unfoldable pub new_chain_labels : (served : List ℕ) → List (ℕ × Label)
new_chain_labels [] = []
new_chain_labels (id ∷ ids) = (id, rendered (to_string id)) ∷ new_chain_labels ids

unfoldable pub find_label : List (ℕ × Label) → (chain_id : ℕ) → Label
find_label [] chain_id = static "other"
find_label ((id, l) ∷ chains) chain_id = if id == chain_id then l else find_label chains chain_id

unfoldable pub label : List (ℕ × Label) → Option ℕ → Label
unfolding find_label
label chains none = static "unknown"
label chains (some chain_id) = find_label chains chain_id

unfoldable pub acp_label : Option Bool → String
acp_label (some true) = "present"
acp_label (some false) = "absent"
acp_label none = "unknown"

unfoldable pub width_label : Option EncryptionType → String
width_label none = "unknown"
width_label (some ty) = as_str ty

-- `StatusCode::is_success`
abbrev pub is_success : ℕ → Bool
is_success status = leb 200 status && ltb status 300

unfoldable pub outcome_label : Option String → (status : ℕ) → String
outcome_label (some code) status = code
outcome_label none status = if is_success status then "ok" else "rejected"

unfoldable pub route_label : Option String → String
route_label none = "unmatched"
route_label (some route) = route

-- The method is the token of the request line.
unfoldable pub method_label : String → String
method_label method =
    if str_eq method "GET"
    then "GET"
    else if str_eq method "POST"
    then "POST"
    else if str_eq method "OPTIONS"
    then "OPTIONS"
    else if str_eq method "HEAD"
    then "HEAD"
    else if str_eq method "PUT"
    then "PUT"
    else if str_eq method "DELETE"
    then "DELETE"
    else if str_eq method "PATCH"
    then "PATCH"
    else "OTHER"

-- The attributes of `teecryptor_decrypt_requests_total`.
pub record DecryptSample : Type 0 where
  pub route : String
  pub host_chain : Label
  pub acp : String
  pub encryption_type : String
  pub outcome : String

-- The attributes of the transport family.
pub record HttpSample : Type 0 where
  pub method : String
  pub route : String
  pub status_code : ℕ

unfoldable pub timed :
    (route : String) (elapsed : ℕ) → Option EncryptionType → Option (String × String × ℕ)
timed route elapsed none = none
timed route elapsed (some ty) = some (route, as_str ty, elapsed)

-- The counted sample, and the route, type and time of the histogram where the width is known.
unfoldable pub observe_decrypt :
    (chains : List (ℕ × Label)) (route : String)
    → DecryptLabels
    → Option String
    → (status elapsed : ℕ) → DecryptSample × Option (String × String × ℕ)
unfolding label acp_label outcome_label width_label timed
observe_decrypt chains route labels outcome status elapsed = (
  record {
    route = route;
    host_chain = label chains labels.host_chain_id;
    acp = acp_label labels.acp_presented;
    encryption_type = width_label labels.encryption_type;
    outcome = outcome_label outcome status;
  },
  timed route elapsed labels.encryption_type,
)

abbrev pub decrypt_routes : List String
decrypt_routes = "/decrypt" ∷ "/sealoutput" ∷ "/v2/decrypt" ∷ "/v2/sealoutput" ∷ []

unfoldable pub contains : List String → String → Bool
contains [] route = false
contains (r ∷ rs) route = str_eq r route || contains rs route

unfoldable pub decrypt_sample :
    (chains : List (ℕ × Label))
    → Option String
    → DecryptLabels
    → Option String
    → (status elapsed : ℕ) → Option (DecryptSample × Option (String × String × ℕ))
unfolding contains observe_decrypt
decrypt_sample chains none labels outcome status elapsed = none
decrypt_sample chains (some route) labels outcome status elapsed =
    if contains decrypt_routes route
    then some (observe_decrypt chains route labels outcome status elapsed)
    else none

-- What is recorded for one response, the labels as the handlers left them.
unfoldable pub track_metrics :
    (chains : List (ℕ × Label)) (matched : Option String) (method : String)
    → DecryptLabels
    → Option String
    → (status elapsed : ℕ) → HttpSample × Option (DecryptSample × Option (String × String × ℕ))
unfolding decrypt_sample route_label method_label
track_metrics chains matched method labels outcome status elapsed = (
  record { method = method_label method; route = route_label matched; status_code = status },
  decrypt_sample chains matched labels outcome status elapsed,
)
