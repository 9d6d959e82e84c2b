-- ===== src/Retention/Newest.antt =====
-- retention/smart.py: the id that it protects is that of the newest snapshot.
use cs_backup_helper.Base.{◌≡◌, refl, ap, ◌⊎◌, inl, inr, false, List, [], ◌∷◌, In, Bool-cases}
use cs_backup_helper.Base.Text.{Text, text_lt, lt_irrefl, le_trans, lt_asymm, eq_of_not_lt}
use cs_backup_helper.Retention.{Snapshot}
use cs_backup_helper.Retention.Policies.{max_id, protected_last}

max_id-above :
    (best : Text) (snaps : List Snapshot)
    → (text_lt (max_id best snaps) best ≡ false)
      × ((s : Snapshot) → In s snaps → text_lt (max_id best snaps) s.id ≡ false)
unfolding max_id
max_id-above best [] = (lt_irrefl best, λ s m. elim m [ ])
max_id-above best (a ∷ snaps) = elim (Bool-cases (text_lt best a.id)) [
  | inl less ↦
      let h = max_id-above a.id snaps in
      rw less (
        le_trans best a.id (max_id a.id snaps) (lt_asymm best a.id less) h.0,
        λ s m. elim m [ inl e ↦ rw e h.0 | inr n ↦ h.1 s n ],
      )
  | inr more ↦
      let h = max_id-above best snaps in
      rw more (
        h.0,
        λ s m. elim m [
          | inl e ↦ rw e (le_trans a.id best (max_id best snaps) more h.0)
          | inr n ↦ h.1 s n
        ],
      )
]

max_id-found :
    (best : Text) (snaps : List Snapshot)
    → (max_id best snaps ≡ best) ⊎ ((s : Snapshot) × In s snaps × (max_id best snaps ≡ s.id))
unfolding max_id
max_id-found best [] = inl refl
max_id-found best (a ∷ snaps) = elim (Bool-cases (text_lt best a.id)) [
  | inl less ↦ rw less (elim (max_id-found a.id snaps) [
    | inl e ↦ inr (a, inl refl, e)
    | inr (s, m, e) ↦ inr (s, inr m, e)
  ])
  | inr more ↦
      rw more (elim (max_id-found best snaps) [ inl e ↦ inl e | inr (s, m, e) ↦ inr (s, inr m, e) ])
]

-- No id is greater than that of `s`.
abbrev pub IsLast : List Snapshot → Snapshot → Type 0
IsLast snaps s = (t : Snapshot) → In t snaps → text_lt s.id t.id ≡ false

pub protected_last-IsLast :
    (snaps : List Snapshot) (s : Snapshot)
    → In s snaps
    → IsLast snaps s
    → protected_last snaps ≡ s.id ∷ []
unfolding protected_last
protected_last-IsLast [] s m h = elim m [ ]
protected_last-IsLast (a ∷ snaps) s m h =
    let above = max_id-above a.id snaps in
    ap (λ x. x ∷ [])
      (eq_of_not_lt (max_id a.id snaps) s.id (elim m [ inl e ↦ rw e above.0 | inr n ↦ above.1 s n ])
        (elim (max_id-found a.id snaps) [
          | inl e ↦ rw e (h a (inl refl))
          | inr (t, n, e) ↦ rw e (h t (inr n))
        ]))
