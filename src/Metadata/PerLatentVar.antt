-- ===== src/Metadata/PerLatentVar.antt =====
-- pco/src/metadata/per_latent_var.rs: a value for each latent variable that a chunk has.
use pcodec.Common.{◌≡◌, refl, inl, inr, ◌⊎◌, Option, none, some, List, [], ◌∷◌, ◌++◌, map, All}
use pcodec.Errors.{Result, ok, panic, ◌>>=◌}
use pcodec.Metadata.DeltaEncoding.{LatentVarKey, delta, primary, secondary}

pub record PerLatentVar {ℓ} (T : Type ℓ) : Type ℓ where
  pub delta_var : Option T
  pub primary_var : T
  pub secondary_var : Option T

pub record PerLatentVarBuilder {ℓ} (T : Type ℓ) : Type ℓ where
  pub delta_var : Option T
  pub primary_var : Option T
  pub secondary_var : Option T

module _ {ℓ} {T : Type ℓ} where
  -- Latent variables from their parts.
  abbrev pub vars_of : Option T → T → Option T → PerLatentVar T
  vars_of d p s = record { delta_var = d; primary_var = p; secondary_var = s }

  unfoldable pub default_builder : PerLatentVarBuilder T
  default_builder = record { delta_var = none; primary_var = none; secondary_var = none }

  unfoldable pub set_var : PerLatentVarBuilder T → LatentVarKey → T → PerLatentVarBuilder T
  set_var builder delta value = record builder { delta_var = some value }
  set_var builder primary value = record builder { primary_var = some value }
  set_var builder secondary value = record builder { secondary_var = some value }

  -- The primary value is unwrapped, and a panic where it is missing.
  unfoldable pub from_builder : PerLatentVarBuilder T → Result (PerLatentVar T)
  from_builder builder = elim builder.primary_var [
    | none ↦ panic
    | some value ↦ ok (record {
      delta_var = builder.delta_var;
      primary_var = value;
      secondary_var = builder.secondary_var;
    })
  ]

  unfoldable pub get_var : PerLatentVar T → LatentVarKey → Option T
  get_var vars delta = vars.delta_var
  get_var vars primary = some vars.primary_var
  get_var vars secondary = vars.secondary_var

  -- A list of one value, or of none.
  unfoldable pub pushed : LatentVarKey → Option T → List (LatentVarKey × T)
  pushed key none = []
  pushed key (some value) = (key, value) ∷ []

  unfoldable pub enumerated : PerLatentVar T → List (LatentVarKey × T)
  unfolding pushed
  enumerated vars =
      pushed delta vars.delta_var
      ++ ((primary, vars.primary_var) ∷ pushed secondary vars.secondary_var)

  -- The keys, of a list of keys, that the latent variables have.
  abbrev with_value : LatentVarKey → Option T → List LatentVarKey → List LatentVarKey
  with_value key none keys = keys
  with_value key (some value) keys = key ∷ keys

  abbrev pub present : PerLatentVar T → List LatentVarKey → List LatentVarKey
  present vars [] = []
  present vars (key ∷ keys) = with_value key (get_var vars key) (present vars keys)

  -- The entries have exactly the keys for which there is a value, first the deltas', then the primary and
  -- then the secondary one, and each has the value of its key.
  pub enumerated-get_var :
      (vars : PerLatentVar T)
      → (map (λ e. e.0) (enumerated vars) ≡ present vars (delta ∷ primary ∷ secondary ∷ []))
        × All (λ e. get_var vars e.0 ≡ some e.1) (enumerated vars)
  unfolding get_var enumerated
  enumerated-get_var vars = by_parts vars.delta_var vars.secondary_var vars.primary_var
    where
      by_parts :
          (d s : Option T) (p : T)
          → (map (λ e. e.0) (enumerated (vars_of d p s))
              ≡ present (vars_of d p s) (delta ∷ primary ∷ secondary ∷ []))
            × All (λ e. get_var (vars_of d p s) e.0 ≡ some e.1) (enumerated (vars_of d p s))
      by_parts none none p = (refl, (refl, tt))
      by_parts none (some s) p = (refl, (refl, (refl, tt)))
      by_parts (some d) none p = (refl, (refl, (refl, tt)))
      by_parts (some d) (some s) p = (refl, (refl, (refl, (refl, tt))))

module _ {ℓ κ} {T : Type ℓ} {S : Type κ} where
  abbrev map_option : (T → S) → Option T → Option S
  map_option f none = none
  map_option f (some x) = some (f x)

  unfoldable pub map_vars : (LatentVarKey → T → S) → PerLatentVar T → PerLatentVar S
  map_vars f vars = record {
    delta_var = map_option (f delta) vars.delta_var;
    primary_var = f primary vars.primary_var;
    secondary_var = map_option (f secondary) vars.secondary_var;
  }

  unfoldable pub zip_option : Option T → Option S → Result (Option (T × S))
  zip_option none none = ok none
  zip_option none (some b) = panic
  zip_option (some a) none = panic
  zip_option (some a) (some b) = ok (some (a, b))

  unfoldable pub zip_exact : PerLatentVar T → PerLatentVar S → Result (PerLatentVar (T × S))
  unfolding zip_option
  zip_exact a b = do
    zipped_delta ← zip_option a.delta_var b.delta_var
    zipped_secondary ← zip_option a.secondary_var b.secondary_var
    ok (record {
      delta_var = zipped_delta;
      primary_var = (a.primary_var, b.primary_var);
      secondary_var = zipped_secondary;
    })

  -- How two values of a key are zipped, and where they cannot be.
  abbrev pub AreZipped : Option T → Option S → Option (T × S) → Type (ℓ ⊔ κ)
  AreZipped a b z =
      ((a ≡ none) × (b ≡ none) × (z ≡ none))
      ⊎ ((x : T) × (y : S) × (a ≡ some x) × (b ≡ some y) × (z ≡ some (x, y)))

  abbrev pub IsOneSided : Option T → Option S → Type (ℓ ⊔ κ)
  IsOneSided a b = ((a ≡ none) × (y : S) × (b ≡ some y)) ⊎ ((b ≡ none) × (x : T) × (a ≡ some x))

  zip_option_cases :
      (a : Option T) (b : Option S)
      → ((z : Option (T × S)) × (zip_option a b ≡ ok z) × AreZipped a b z)
        ⊎ ((zip_option a b ≡ panic) × IsOneSided a b)
  unfolding zip_option
  zip_option_cases none none = inl (none, refl, inl (refl, refl, refl))
  zip_option_cases none (some b) = inr (refl, inl (refl, b, refl))
  zip_option_cases (some a) none = inr (refl, inr (refl, a, refl))
  zip_option_cases (some a) (some b) = inl (some (a, b), refl, inr (a, b, refl, refl, refl))

  -- Zipping either returns latent variables in which every key has both values where both sides have
  -- one, and no value where neither side has one; or it panics, and some key has a value on one
  -- side only.
  pub zip_exact-get_var :
      (a : PerLatentVar T) (b : PerLatentVar S)
      → ((vars : PerLatentVar (T × S)) × (zip_exact a b ≡ ok vars)
          × ((key : LatentVarKey) → AreZipped (get_var a key) (get_var b key) (get_var vars key)))
        ⊎ ((zip_exact a b ≡ panic)
            × ((key : LatentVarKey) × IsOneSided (get_var a key) (get_var b key)))
  unfolding zip_exact get_var
  zip_exact-get_var a b = elim (zip_option_cases a.delta_var b.delta_var) [
    | inr (stops, apart) ↦ inr (rw stops refl, (delta, apart))
    | inl (d, runs, zipped) ↦ elim (zip_option_cases a.secondary_var b.secondary_var) [
      | inr (stops, apart) ↦ inr (rw (runs, stops) refl, (secondary, apart))
      | inl (s, runs', zipped') ↦
          let vars : PerLatentVar (T × S) = record {
            delta_var = d;
            primary_var = (a.primary_var, b.primary_var);
            secondary_var = s;
          } in
          inl (
            vars,
            rw (runs, runs') refl,
            λ key. elim key as (λ q. AreZipped (get_var a q) (get_var b q) (get_var vars q)) [
              | delta ↦ zipped
              | primary ↦ inr (a.primary_var, b.primary_var, refl, refl, refl)
              | secondary ↦ zipped'
            ],
          )
    ]
  ]
