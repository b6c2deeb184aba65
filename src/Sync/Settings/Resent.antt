-- ===== src/Sync/Settings/Resent.antt =====
-- syncsvc/settings.go: a settings message that a client sends again.
use podcast_backend.Prelude.{
  String, Bool, true, false, Option, none, some, [], ◌∷◌, str_eq, eq_iff, ◌≡◌, refl, ◌∙◌, ap, inl,
  inr, arith, Bool-cases,
}
use podcast_backend.Wire.Settings.{Settings, Setting, SettingKind, Descriptor}
use podcast_backend.Sync.Env.{Env}
use podcast_backend.Sync.Settings.{merge_field, merge_fields, merge_changed_settings, stored_wins}
use podcast_backend.Sync.Settings.Merge.{winner, listed, merge_fields-winner}

-- Each incoming value of these fields loses against what is stored.
unfoldable Settled : Settings → Descriptor → Settings → Type 0
Settled incoming fields stored =
    (name : String) (v : Setting)
    → listed name fields ≡ true
    → incoming name ≡ some v
    → stored_wins (stored name) v ≡ true

-- The winner of a key wins again.
stored_wins-winner :
    (old : Option Setting) (v : Setting) → stored_wins (winner old (some v)) v ≡ true
unfolding winner
stored_wins-winner none v = ground arith
stored_wins-winner (some e) v = ground arith

listed-there :
    (key name : String) (k : SettingKind) (fields : Descriptor)
    → listed key fields ≡ true
    → listed key ((name, k) ∷ fields) ≡ true
unfolding listed
listed-there key name k fields l = elim (Bool-cases (str_eq key name)) [
  | inl e ↦ rw e refl
  | inr e ↦ rw e l
]

module _ (incoming : Settings) where
  merge_field_unchanged :
      (name : String) (new : Option Setting) (stored : Settings) (changed : Bool)
      → ((v : Setting) → new ≡ some v → stored_wins (stored name) v ≡ true)
      → merge_field name new (stored, changed) ≡ (stored, changed)
  unfolding merge_field
  merge_field_unchanged name none stored changed wins = refl
  merge_field_unchanged name (some v) stored changed wins = rw (wins v refl) refl

  merge_fields_unchanged :
      (fields : Descriptor) (stored : Settings) (changed : Bool)
      → Settled incoming fields stored
      → merge_fields fields incoming (stored, changed) ≡ (stored, changed)
  unfolding merge_fields Settled listed
  merge_fields_unchanged [] stored changed settled = refl
  merge_fields_unchanged ((name, k) ∷ fields) stored changed settled =
      ap (merge_fields fields incoming) (
        merge_field_unchanged name (incoming name) stored changed
          (λ v e. settled name v (rw ((eq_iff name name).1 refl) refl) e))
      ∙ merge_fields_unchanged fields stored changed
          (λ key v l e. settled key v (listed-there key name k fields l) e)

  merge_fields-Settled :
      (fields : Descriptor) (stored : Settings) (changed : Bool)
      → Settled incoming fields (merge_fields fields incoming (stored, changed)).0
  unfolding Settled
  merge_fields-Settled fields stored changed name v l e =
      ap (λ o. stored_wins o v)
        (merge_fields-winner incoming fields stored changed name ∙ rw (l, e) refl)
      ∙ stored_wins-winner (stored name) v

module _ (env : Env) where
  -- A settings message that is merged a second time changes nothing, and the merge says so.
  pub merge_changed_settings-again :
      (stored : Settings) (incoming : Option Settings)
      → merge_changed_settings env (merge_changed_settings env stored incoming).0 incoming
        ≡ ((merge_changed_settings env stored incoming).0, false)
  unfolding merge_changed_settings
  merge_changed_settings-again stored none = refl
  merge_changed_settings-again stored (some incoming) =
      merge_fields_unchanged incoming env.changeable
        (merge_fields env.changeable incoming (stored, false)).0 false
        (merge_fields-Settled incoming env.changeable stored false)
