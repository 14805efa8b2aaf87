-- ===== src/Chain/Dns.antt =====
-- The DNS settings of the program over those of a profile, `apply_dns_override` of chain.rs.
use clash_verge_cli.Prelude.{
  ◌≡◌, refl, ◌≢◌, ◌⊎◌, inl, inr, false, Option, none, some, List, [], ◌∷◌, if◌then◌else◌,
  Option-cases, is_empty, ◌>>=◌,
}
use clash_verge_cli.Yaml.{Yaml}
use clash_verge_cli.Yaml.Access.{as_mapping, get_key}
use clash_verge_cli.Yaml.Merge.{merge_mapping_values}
use clash_verge_cli.Yaml.Merge.Decided.{IsDecided, IsFilled, merge_mapping_values-IsDecided}

module _ (Y : Yaml) where
  open Y use {
    Value, Mapping, of_string, of_mapping, get, insert, empty, entries, get-insert_self,
    get-insert_ne,
  }

  -- the section that is overlaid, if the profile's is a mapping or missing
  abbrev pub dns_of : Mapping → Option Mapping
  dns_of config = elim (get_key Y "dns" config) [
    | none ↦ some empty
    | some value ↦ as_mapping Y value
  ]

  unfoldable pub apply_dns_override : Mapping → Mapping → Option Mapping
  unfolding merge_mapping_values
  apply_dns_override config dns_override =
      if is_empty (entries dns_override)
      then some config
      else (dns_of config >>= λ dns.
          some (
            insert (of_string "dns") (of_mapping (merge_mapping_values Y dns dns_override)) config))

  -- The section that the settings are laid over: that of the profile, or an empty one if it has none.
  abbrev pub HasSection : Mapping → Mapping → Type 0
  HasSection config dns =
      ((get_key Y "dns" config ≡ none) × (dns ≡ empty))
      ⊎ ((value : Value) × (get_key Y "dns" config ≡ some value) × (as_mapping Y value ≡ some dns))

  -- The new section has each key as the overlay decides it, and the value at `j` is as before.
  abbrev pub IsOverlaid : Value → Mapping → Mapping → Mapping → Mapping → Type 0
  IsOverlaid j config dns dns_override config' =
      ((section : Mapping) × (get_key Y "dns" config' ≡ some (of_mapping section))
        × ((k : Value)
            → IsDecided Y (IsFilled Y) (merge_mapping_values Y) (get k dns) (get k dns_override)
                (get k section)))
      × (get j config' ≡ get j config)

  module _ (config dns_override : Mapping) (j : Value) (ne : of_string "dns" ≢ j) where
    IsOverlaid-section :
        (dns : Mapping)
        → IsOverlaid j config dns dns_override
            (insert (of_string "dns") (of_mapping (merge_mapping_values Y dns dns_override)) config)
    IsOverlaid-section dns = (
      (
        merge_mapping_values Y dns dns_override,
        get-insert_self (of_string "dns") _ config,
        merge_mapping_values-IsDecided Y dns dns_override,
      ),
      get-insert_ne (of_string "dns") j _ config ne,
    )

    -- Settings that are not empty fail if the profile's section is there and is no mapping. Otherwise
    -- they are laid over it, or over an empty one if it has none, key by key: an empty mapping replaces
    -- the old value, a filled one is merged into an old mapping, and every other key of the configuration
    -- keeps its value.
    pub apply_dns_override_lem :
        entries dns_override ≢ []
        → ((value : Value) × (get_key Y "dns" config ≡ some value)
            × (as_mapping Y value ≡ none)
            × (apply_dns_override config dns_override ≡ none))
          ⊎ ((dns : Mapping) × HasSection config dns
              × ((config' : Mapping) × (apply_dns_override config dns_override ≡ some config')
                  × IsOverlaid j config dns dns_override config'))
    unfolding apply_dns_override
    apply_dns_override_lem filled =
        let e = not_empty (entries dns_override) filled in
        elim (Option-cases (get_key Y "dns" config)) [
          | inl n ↦ inr (
            empty,
            inl (n, refl),
            (_, (rw (e, n, apply_dns_override, dns_of) refl), IsOverlaid-section empty),
          )
          | inr (value, n) ↦ elim (Option-cases (as_mapping Y value)) [
            | inl m ↦ inl (value, n, m, rw (e, n, m, apply_dns_override, dns_of) refl)
            | inr (dns, m) ↦ inr (
              dns,
              inr (value, n, m),
              (_, (rw (e, n, m, apply_dns_override, dns_of) refl), IsOverlaid-section dns),
            )
          ]
        ]
      where
        not_empty : {A : Type 0} (xs : List A) → xs ≢ [] → is_empty xs ≡ false
        not_empty [] ne = absurd (ne refl)
        not_empty (x ∷ xs) ne = refl
