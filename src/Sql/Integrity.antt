-- ===== src/Sql/Integrity.antt =====
-- Every statement keeps the constraints of the table: distinct ids, and statuses of the four kinds.
use mathlib.Core.Path.{subst}
use mathlib.Core.Bool.{and-eq-true_iff}
use backup_service.Common.{
  sym, ◌≡◌, refl, ◌≢◌, String, Bool, true, not, Option, none, List, [], ◌∷◌, ◌++◌, map, ok, arith,
  if◌then◌else◌, select, find, all, All, All-append, All-select, Option-cases, Bool-cases, inl, inr,
}
use backup_service.Common.Int.{ℤ}
use backup_service.Models.{Uuid, Backup}
use backup_service.Services.{Attempt, Postgres}
use backup_service.Sql.{
  Table, Statement, is_allowed, has_id, is_row_of, new_row, map_where, insert_backup, select_backup,
  select_page, select_count, update_where, update_backup, delete_backup, set_status, set_completed,
  set_failed,
}

abbrev pub HasAllowedStatus : Backup → Type 0
HasAllowedStatus r = is_allowed r.status ≡ true

abbrev pub HasDistinctIds : Table → Type 0
HasDistinctIds [] = Unit
HasDistinctIds (r ∷ rows) = All (λ x. r.id ≢ x.id) rows × HasDistinctIds rows

pub record IsWellFormed (t : Table) : Type 0 where
  pub statuses : All HasAllowedStatus t
  pub ids : HasDistinctIds t

-- A statement that runs keeps a property of the table.
pub record Preserves (P : Table → Type 0) {A : Type 0} (s : Statement A) : Type 0 where
  pub at : (a : Attempt) (t t' : Table) (x : A) → s a t ≡ ok (x, t') → P t → P t'

pub find-none : (id : Uuid) (t : Table) → find (has_id id) t ≡ none → All (λ r. r.id ≢ id) t
find-none id [] h = tt
find-none id (r ∷ rows) h = (ground arith, find-none id rows (ground arith))

ids-append :
    (t : Table) (r : Backup)
    → HasDistinctIds t
    → All (λ x. x.id ≢ r.id) t
    → HasDistinctIds (t ++ r ∷ [])
ids-append [] r h k = (tt, tt)
ids-append (x ∷ t) r (new, h) (ne, k) =
    (All-append (λ y. x.id ≢ y.id) t (r ∷ []) new (ne, tt), ids-append t r h k)

-- An update that leaves the ids alone.
All-map_where :
    (id : Uuid) (p : Backup → Bool) (f : Backup → Backup) (t : Table)
    → ((r : Backup) → (f r).id ≡ r.id)
    → All (λ x. id ≢ x.id) t
    → All (λ x. id ≢ x.id) (map_where p f t)
unfolding map_where
All-map_where id p f [] same h = tt
All-map_where id p f (r ∷ t) same (ne, h) = (ground (arith, same r), All-map_where id p f t same h)

ids-map_where :
    (p : Backup → Bool) (f : Backup → Backup) (t : Table)
    → ((r : Backup) → (f r).id ≡ r.id)
    → HasDistinctIds t
    → HasDistinctIds (map_where p f t)
unfolding map_where
ids-map_where p f [] same h = tt
ids-map_where p f (r ∷ t) same (new, h) =
    let kept : (if p r then f r else r).id ≡ r.id = ground (arith, same r) in
    (
      subst (λ k. All (λ x. k ≢ x.id) (map_where p f t)) (sym kept)
          (All-map_where r.id p f t same new),
      ids-map_where p f t same h,
    )

statuses-map_where :
    (p : Backup → Bool) (f : Backup → Backup) (t : Table)
    → all (λ r. is_allowed r.status) (map f (select p t)) ≡ true
    → All HasAllowedStatus t
    → All HasAllowedStatus (map_where p f t)
unfolding map_where
statuses-map_where p f [] fine h = tt
statuses-map_where p f (r ∷ t) fine (here, h) = elim (Bool-cases (p r)) [
  | inl hit ↦
      let both = rw hit at fine in
      let (now, later) = (and-eq-true_iff _ _).0 both in
      rw hit (now, statuses-map_where p f t later h)
  | inr miss ↦ rw miss (here, statuses-map_where p f t (rw miss at fine) h)
]

ids-select : (p : Backup → Bool) (t : Table) → HasDistinctIds t → HasDistinctIds (select p t)
ids-select p [] h = tt
ids-select p (r ∷ t) (new, h) = elim (Bool-cases (p r)) [
  | inl kept ↦ rw kept (All-select (λ x. r.id ≢ x.id) p t new, ids-select p t h)
  | inr dropped ↦ rw dropped (ids-select p t h)
]

map_where-IsWellFormed :
    (p : Backup → Bool) (f : Backup → Backup) (t : Table)
    → ((r : Backup) → (f r).id ≡ r.id)
    → all (λ r. is_allowed r.status) (map f (select p t)) ≡ true
    → IsWellFormed t
    → IsWellFormed (map_where p f t)
map_where-IsWellFormed p f t same fine w = record {
  statuses = statuses-map_where p f t fine w.statuses;
  ids = ids-map_where p f t same w.ids;
}

update_where-IsWellFormed :
    (p : Backup → Bool) (f : Backup → Backup) (a : Attempt) (t t' : Table) (x : List Backup)
    (pg : Postgres)
    → ((r : Backup) → (f r).id ≡ r.id)
    → update_where pg p f a t ≡ ok (x, t')
    → IsWellFormed t
    → IsWellFormed t'
unfolding update_where
update_where-IsWellFormed p f a t t' x pg same e w =
    elim (Bool-cases (all (λ r. is_allowed r.status) (map f (select p t)))) [
      | inl fine ↦
          let left : map_where p f t ≡ t' = ground arith in
          subst IsWellFormed left (map_where-IsWellFormed p f t same fine w)
      | inr refused ↦ absurd (ground arith)
    ]

module _ (pg : Postgres) where
  pub insert_backup-IsWellFormed :
      (tenant : Uuid) (path : String) (encryption : Bool)
      → Preserves IsWellFormed (insert_backup pg tenant path encryption)
  unfolding insert_backup
  insert_backup-IsWellFormed tenant path encryption = record {
    at = λ a t t' x e w. elim (Option-cases (find (has_id a.uuid) t)) [
      | inl fresh ↦
          let row = new_row tenant path encryption a in
          let left : t ++ row ∷ [] ≡ t' = ground arith in
          subst IsWellFormed left (record {
            statuses = All-append HasAllowedStatus t (row ∷ []) w.statuses (refl, tt);
            ids = ids-append t row w.ids (find-none a.uuid t fresh);
          })
      | inr (r, taken) ↦ absurd (ground arith)
    ];
  }

  pub update_backup-IsWellFormed :
      (id tenant : Uuid) (status : Option String) (size : Option ℤ)
      → Preserves IsWellFormed (update_backup pg id tenant status size)
  unfolding update_backup
  update_backup-IsWellFormed id tenant status size = record {
    at = λ a t t' x e w. update_where-IsWellFormed _ _ a t t' x pg (λ r. refl) e w;
  }

  pub set_status-IsWellFormed :
      (id : Uuid) (status : String) → Preserves IsWellFormed (set_status pg id status)
  unfolding set_status
  set_status-IsWellFormed id status = record {
    at = λ a t t' x e w. update_where-IsWellFormed _ _ a t t' x pg (λ r. refl) e w;
  }

  pub set_completed-IsWellFormed :
      (id : Uuid) (size : ℤ) → Preserves IsWellFormed (set_completed pg id size)
  unfolding set_completed
  set_completed-IsWellFormed id size = record {
    at = λ a t t' x e w. update_where-IsWellFormed _ _ a t t' x pg (λ r. refl) e w;
  }

  pub set_failed-IsWellFormed : (id : Uuid) → Preserves IsWellFormed (set_failed pg id)
  unfolding set_failed
  set_failed-IsWellFormed id = record {
    at = λ a t t' x e w. update_where-IsWellFormed _ _ a t t' x pg (λ r. refl) e w;
  }

  pub delete_backup-IsWellFormed :
      (id tenant : Uuid) → Preserves IsWellFormed (delete_backup pg id tenant)
  unfolding delete_backup
  delete_backup-IsWellFormed id tenant = record {
    at = λ a t t' x e w.
        let left : select (λ r. not (is_row_of id tenant r)) t ≡ t' = ground arith in
        subst IsWellFormed left (record {
          statuses = All-select HasAllowedStatus _ t w.statuses;
          ids = ids-select _ t w.ids;
        });
  }

-- A query changes nothing.
module _ (pg : Postgres) (P : Table → Type 0) where
  pub select_backup-keeps : (id tenant : Uuid) → Preserves P (select_backup pg id tenant)
  unfolding select_backup
  select_backup-keeps id tenant = record {
    at = λ a t t' x e h. let same : t ≡ t' = ground arith in subst P same h;
  }

  pub select_count-keeps :
      (tenant : Uuid) (status : Option String) → Preserves P (select_count pg tenant status)
  unfolding select_count
  select_count-keeps tenant status = record {
    at = λ a t t' x e h. let same : t ≡ t' = ground arith in subst P same h;
  }

  pub select_page-keeps :
      (tenant : Uuid) (status : Option String) (limit offset : ℤ)
      → Preserves P (select_page pg tenant status limit offset)
  unfolding select_page
  select_page-keeps tenant status limit offset = record {
    at = λ a t t' x e h. let same : t ≡ t' = ground arith in subst P same h;
  }
