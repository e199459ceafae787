-- ===== src/Sql/Lookup.antt =====
-- The row of an id after an update by id.
use backup_service.Common.{
  ◌≡◌, refl, ap, ◌∙◌, first, String, Bool, true, none, some, List, [], ◌∷◌, map, ok, ◌==◌, arith,
  select, find, all, Bool-cases, inl, inr,
}
use backup_service.Common.Int.{ℤ}
use backup_service.Models.{Uuid, Backup}
use backup_service.Services.{Attempt, Postgres}
use backup_service.Sql.{
  Table, is_allowed, has_id, map_where, update_where, set_status, set_completed,
}

-- What a report of success makes of the row.
abbrev pub completed_row : ℤ → Attempt → Backup → Backup
completed_row size a r = record r { status = "completed"; size_bytes = size; updated_at = a.now }

-- What an update of the status makes of the row.
abbrev pub status_row : String → Attempt → Backup → Backup
status_row status a r = record r { status = status; updated_at = a.now }

module _ (id : Uuid) where
  -- Nothing has the id: nothing is changed.
  pub map_where-absent :
      (f : Backup → Backup) (t : Table) → find (has_id id) t ≡ none → map_where (has_id id) f t ≡ t
  unfolding map_where
  map_where-absent f [] h = refl
  map_where-absent f (r ∷ t) h = elim (Bool-cases (r.id == id)) [
    | inl hit ↦ absurd (ground (arith, rw hit at h))
    | inr miss ↦ rw (miss, map_where-absent f t (rw miss at h))
  ]

  pub select-absent : (t : Table) → find (has_id id) t ≡ none → select (has_id id) t ≡ []
  select-absent [] h = refl
  select-absent (r ∷ t) h = elim (Bool-cases (r.id == id)) [
    | inl hit ↦ absurd (ground (arith, rw hit at h))
    | inr miss ↦ rw (miss, select-absent t (rw miss at h))
  ]

  pub find-map_where :
      (f : Backup → Backup) (t : Table) (b : Backup)
      → ((r : Backup) → (f r).id ≡ r.id)
      → find (has_id id) t ≡ some b
      → find (has_id id) (map_where (has_id id) f t) ≡ some (f b)
  unfolding map_where
  find-map_where f [] b same h = absurd (ground (arith, h))
  find-map_where f (r ∷ t) b same h = elim (Bool-cases (r.id == id)) [
    | inl hit ↦
        let here : some r ≡ some b = rw hit at h in
        let e : r ≡ b = cc here in
        let kept : ((f r).id == id) ≡ true = rw (same r) hit in
        rw (hit, kept) (ap (λ x. some (f x)) e)
    | inr miss ↦ rw (miss, miss) (find-map_where f t b same (rw miss at h))
  ]

  pub all-map :
      (p : Backup → Bool) (f : Backup → Backup) (rs : List Backup)
      → ((r : Backup) → p (f r) ≡ true)
      → all p (map f rs) ≡ true
  all-map p f [] h = refl
  all-map p f (r ∷ rs) h = rw h (all-map p f rs h)

  pub set_status_absent :
      (pg : Postgres) (status : String) (a : Attempt) (t : Table)
      → find (has_id id) t ≡ none
      → set_status pg id status a t ≡ ok ([], t)
  unfolding set_status update_where
  set_status_absent pg status a t h = rw (
    select-absent t h,
    map_where-absent (λ r. record r { status = status; updated_at = a.now }) t h,
  )

  pub set_completed_answer :
      (pg : Postgres) (size : ℤ) (a : Attempt) (t : Table)
      → set_completed pg id size a t
        ≡ ok (
          map (completed_row size a) (select (has_id id) t),
          map_where (has_id id) (completed_row size a) t,
        )
  unfolding set_completed update_where
  set_completed_answer pg size a t =
      let fine =
        all-map (λ r. is_allowed r.status) (completed_row size a) (select (has_id id) t)
          (λ r. refl) in
      rw fine

  -- The first of the rows that an update by id returns.
  pub select-found :
      (t : Table) (b : Backup)
      → find (has_id id) t ≡ some b
      → (rest : List Backup) × (select (has_id id) t ≡ b ∷ rest)
  select-found [] b h = absurd (ground (arith, h))
  select-found (r ∷ t) b h = elim (Bool-cases (r.id == id)) [
    | inl hit ↦
        let here : some r ≡ some b = rw hit at h in
        let e : r ≡ b = cc here in
        (select (has_id id) t, rw hit (ap (λ x. x ∷ select (has_id id) t) e))
    | inr miss ↦ let (rest, e) = select-found t b (rw miss at h) in (rest, rw miss e)
  ]

  pub set_status_answer :
      (pg : Postgres) (status : String) (a : Attempt) (t : Table)
      → is_allowed status ≡ true
      → set_status pg id status a t
        ≡ ok (
          map (status_row status a) (select (has_id id) t),
          map_where (has_id id) (status_row status a) t,
        )
  unfolding set_status update_where
  set_status_answer pg status a t allowed =
      let fine =
        all-map (λ r. is_allowed r.status) (status_row status a) (select (has_id id) t)
          (λ r. allowed) in
      rw fine

-- An update that its condition cannot tell.
module _ (p : Backup → Bool) (f : Backup → Backup) (same : (r : Backup) → p (f r) ≡ p r) where
  pub find-map_where_by :
      (t : Table) (b : Backup) → find p t ≡ some b → find p (map_where p f t) ≡ some (f b)
  unfolding map_where
  find-map_where_by [] b h = absurd (ground (arith, h))
  find-map_where_by (r ∷ t) b h = elim (Bool-cases (p r)) [
    | inl hit ↦
        let here : some r ≡ some b = rw hit at h in
        let e : r ≡ b = cc here in
        let kept : p (f r) ≡ true = same r ∙ hit in rw (hit, kept) (ap (λ x. some (f x)) e)
    | inr miss ↦ rw (miss, miss) (find-map_where_by t b (rw miss at h))
  ]

  pub first-map :
      (t : Table) (b : Backup) → find p t ≡ some b → first (map f (select p t)) ≡ some (f b)
  first-map [] b h = absurd (ground (arith, h))
  first-map (r ∷ t) b h = elim (Bool-cases (p r)) [
    | inl hit ↦
        let here : some r ≡ some b = rw hit at h in
        let e : r ≡ b = cc here in rw hit (ap (λ x. some (f x)) e)
    | inr miss ↦ rw miss (first-map t b (rw miss at h))
  ]

-- What is found meets the condition.
pub find-holds : (p : Backup → Bool) (t : Table) (b : Backup) → find p t ≡ some b → p b ≡ true
find-holds p [] b h = absurd (ground (arith, h))
find-holds p (r ∷ t) b h = elim (Bool-cases (p r)) [
  | inl hit ↦ let here : some r ≡ some b = rw hit at h in let e : r ≡ b = cc here in rw (← e) hit
  | inr miss ↦ find-holds p t b (rw miss at h)
]
