-- ===== src/Provider.antt =====
-- internal/provider: what a webhook source is asked (provider.go), and the registry of the
-- providers (registry.go). The providers themselves are parameters.
mod Tests
pub mod Lookup
use lawang.Prelude.{
  ℕ, Bool, true, false, List, [], ◌∷◌, ◌++◌, Option, none, some, find, if◌then◌else◌, not, Text,
  text_eq, Result, ok, err,
}
use lawang.Pipeline.Ledger.Versions.{VersionOrder, unset}
use lawang.Record.Names.{valid_provider_key}

-- What a delivery says of its owner. An empty key is absent.
pub record DeliveryKeys : Type 0 where
  pub workspace : Text
  pub subscription : Text

-- The delivery as a signature scheme sees it.
pub record Request : Type 0 where
  pub method : Text
  pub url : Text
  pub header : Text
  pub body : Text

-- A handshake's answer. The status 0 means 200, an empty content type means plain text.
pub record Reply : Type 0 where
  pub status : ℕ
  pub content_type : Text
  pub body : Text

-- A request as it arrives: the provider that its path names, and the bytes that its body yields
-- before it ends, or before reading it fails.
pub record HttpRequest : Type 0 where
  pub provider : Text
  pub method : Text
  pub request_uri : Text
  pub header : Text
  pub content_length : Option ℕ
  pub stream : Text
  pub fails : Bool

-- The outcome of one Verify: an answer, a panic, or the deadline of the request.
pub data Verification : Type 0 where
  answered : Bool → Verification
  panicked timed_out : Verification

-- The methods of a webhook source that the accept path calls.
pub record Source : Type 0 where
  pub handshake : HttpRequest → Text → Option Reply
  pub delivery_keys : Text → Text → Option DeliveryKeys
  pub verify : Request → Text → Verification

-- A provider that is registered, and its entry: its key, the order of its versions and its webhook
-- source, where it is one.
pub record Provider : Type 0 where
  pub key : Text
  pub version_order : VersionOrder
  pub source : Option Source

pub record Entry : Type 0 where
  pub key : Text
  pub versions : VersionOrder
  pub source : Option Source

pub data RegistryError : Type 0 where
  nil_provider bad_key duplicate_key no_version_order : RegistryError

abbrev pub is_valid_order : VersionOrder → Bool
is_valid_order unset = false
is_valid_order _ = true

-- Lookup.
unfoldable pub lookup : Text → List Entry → Option Entry
lookup key entries = find (λ e. text_eq e.key key) entries

-- The body of the loop of NewRegistry. `none` is a nil provider.
unfoldable pub register_one : Option Provider → List Entry → Result RegistryError (List Entry)
register_one none entries = err nil_provider
register_one (some p) entries =
    if not (valid_provider_key p.key) then err bad_key else elim (lookup p.key entries) [
      | some e ↦ err duplicate_key
      | none ↦
          if is_valid_order p.version_order
          then ok (record { key = p.key; versions = p.version_order; source = p.source } ∷ entries)
          else err no_version_order
    ]

unfoldable pub register_all :
    List (Option Provider) → List Entry → Result RegistryError (List Entry)
register_all [] entries = ok entries
register_all (p ∷ ps) entries = elim (register_one p entries) [
  | err e ↦ err e
  | ok more ↦ register_all ps more
]

unfoldable pub new_registry : List (Option Provider) → Result RegistryError (List Entry)
new_registry ps = register_all ps []
