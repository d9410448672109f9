-- ===== src/Provider/Tests.antt =====
-- A registry of internal/provider with two providers.
use lawang.Prelude.{
  ◌≡◌, List, [], ◌∷◌, Option, none, some, In, inl, inr, Text, text, Result, ok, err, refl,
}
use lawang.Pipeline.Ledger.Versions.{decimal_versions, base64_versions}
use lawang.Provider.{RegistryError, Provider, Entry, lookup, new_registry}
use lawang.Provider.Lookup.{IsEntryOf, new_registry-lookup}

abbrev clickup : Provider
clickup = record { key = text "clickup"; version_order = decimal_versions; source = none }

abbrev graph : Provider
graph = record { key = text "graph"; version_order = base64_versions; source = none }

abbrev registered_entries : Result RegistryError (List Entry) → List Entry
registered_entries (ok es) = es
registered_entries (err e) = []

registered :
    new_registry (some clickup ∷ some graph ∷ [])
    ≡ ok (registered_entries (new_registry (some clickup ∷ some graph ∷ [])))
unfolding new_registry lawang.Provider.register_all lawang.Provider.register_one
    lawang.Record.Names.valid_provider_key lawang.Record.Names.valid_name
    lawang.Record.Names.is_lower lawang.Record.Names.name_char lookup lawang.Prelude.text_eq
registered = refl

new_registry-lookup_example :
    (e : Entry) × (lookup
        (text "graph")
        (registered_entries (new_registry (some clickup ∷ some graph ∷ [])))
      ≡ some e)
    × IsEntryOf graph e
new_registry-lookup_example =
    new_registry-lookup (some clickup ∷ some graph ∷ [])
      (registered_entries (new_registry (some clickup ∷ some graph ∷ []))) graph registered
      (inr (inl refl))
