-- ===== src/Sync/Settings/Merge.antt =====
-- The merge of settings, key by key.
use podcast_backend.Prelude.{
  leb_ℤ, String, Bool, true, false, ◌||◌, Option, none, some, [], ◌∷◌, str_eq, eq_iff, ◌≡◌, refl,
  sym, ◌∙◌, ap, inl, inr, arith, if◌then◌else◌, Bool-cases, Option-cases,
}
use podcast_backend.Wire.Settings.{Settings, Setting, Descriptor}
use podcast_backend.Sync.Settings.{merge_field, setting_modified_at, merge_fields}

-- The last writer of one key: an incoming value wins with a stamp that is later than the stored
-- one's, or where none is stored.
unfoldable pub winner : Option Setting → Option Setting → Option Setting
winner old none = old
winner none (some v) = some v
winner (some e) (some v) =
    if leb_ℤ (setting_modified_at v) (setting_modified_at e) then some e else some v

unfoldable pub listed : String → Descriptor → Bool
listed key [] = false
listed key ((name, _) ∷ fields) = str_eq key name || listed key fields

winner_again : (old new : Option Setting) → winner (winner old new) new ≡ winner old new
unfolding winner
winner_again old none = refl
winner_again none (some v) = ground arith
winner_again (some e) (some v) = ground arith

merge_field-winner :
    (name key : String) (new : Option Setting) (stored : Settings) (changed : Bool)
    → (merge_field name new (stored, changed)).0 key
      ≡ (if str_eq key name then winner (stored name) new else stored key)
unfolding merge_field winner
merge_field-winner name key none stored changed = elim (Bool-cases (str_eq key name)) [
  | inl e ↦ rw (e, (eq_iff key name).0 e) refl
  | inr e ↦ rw e refl
]
merge_field-winner name key (some v) stored changed = elim (Option-cases (stored name)) [
  | inl e ↦ rw e refl
  | inr (old, e) ↦ elim (Bool-cases (leb_ℤ (setting_modified_at v) (setting_modified_at old))) [
    | inl l ↦ elim (Bool-cases (str_eq key name)) [
      | inl k ↦ rw (e, l, k) (ap stored ((eq_iff key name).0 k) ∙ e)
      | inr k ↦ rw (e, l, k) refl
    ]
    | inr l ↦ rw (e, l) refl
  ]
]

-- One turn of the walk, whether or not its key comes again.
settle :
    (b l : Bool) (new old v : Option Setting)
    → new ≡ (if b then winner old v else old)
    → (if l then winner new v else new) ≡ (if b || l then winner old v else old)
settle true true new old v e = ap (λ o. winner o v) e ∙ winner_again old v
settle true false new old v e = e
settle false true new old v e = ap (λ o. winner o v) e
settle false false new old v e = e

module _ (incoming : Settings) where
  here :
      (name key : String) (stored : Settings) (changed : Bool)
      → (merge_field name (incoming name) (stored, changed)).0 key
        ≡ (if str_eq key name then winner (stored key) (incoming key) else stored key)
  here name key stored changed = elim (Bool-cases (str_eq key name)) [
    | inl e ↦
        merge_field-winner name key (incoming name) stored changed
        ∙ rw e (ap (λ n. winner (stored n) (incoming n)) (sym ((eq_iff key name).0 e)))
    | inr e ↦ merge_field-winner name key (incoming name) stored changed ∙ rw e refl
  ]

  -- A merge keeps, for each key of the message, the last writer, whatever the order of the keys,
  -- and leaves every other key as it was.
  pub merge_fields-winner :
      (fields : Descriptor) (stored : Settings) (changed : Bool) (key : String)
      → (merge_fields fields incoming (stored, changed)).0 key
        ≡ (if listed key fields then winner (stored key) (incoming key) else stored key)
  unfolding merge_fields listed
  merge_fields-winner [] stored changed key = refl
  merge_fields-winner ((name, k) ∷ fields) stored changed key =
      let m = merge_field name (incoming name) (stored, changed) in
      merge_fields-winner fields m.0 m.1 key
      ∙ settle (str_eq key name) (listed key fields) (m.0 key) (stored key) (incoming key)
          (here name key stored changed)
