-- ===== src/Sql/Answers.antt =====
-- What the statements of a tenant answer: rows of the tenant.
use mathlib.Core.Path.{subst}
use mathlib.Core.Bool.{and-eq-true_iff}
use mathlib.Core.List.{Perm, Permᴰ}
use mathlib.Core.List.Permᴰ
use mathlib.Core.Logic.{∥∥₁_elim}
use native.Mathlib.Nat.{ℕ_set}
use backup_service.Common.{
  ◌≡◌, refl, sym, ap, ◌∙◌, String, Bool, true, ◌||◌, Option, none, some, List, [], ◌∷◌, map, ok,
  arith, ==_iff, select, find, first, all, take, drop, All, All-take, All-drop, Option-cases,
  Bool-cases, inl, inr,
}
use backup_service.Common.Int.{ℤ, pos, pos_part, ltb_ℤ}
use backup_service.Models.{Uuid, Backup}
use backup_service.Services.{Attempt, Postgres}
use backup_service.Services.Laws.{IsPostgres}
use backup_service.Sql.{
  Table, Statement, is_allowed, has_id, is_row_of, matches, written, new_row, insert_backup,
  select_backup, select_page, update_where, update_backup,
}
use backup_service.Cache.Ownership.{BelongsTo}

-- What a statement answers when it runs.
pub record Answers {A : Type 0} (Q : A → Type 0) (st : Statement A) : Type 0 where
  pub at : (a : Attempt) (t t' : Table) (x : A) → st a t ≡ ok (x, t') → Q x

abbrev pub OnSome : {A : Type 0} → (A → Type 0) → Option A → Type 0
OnSome P none = Unit
OnSome P (some a) = P a

pub OnSome-first : {A : Type 0} (P : A → Type 0) (xs : List A) → All P xs → OnSome P (first xs)
OnSome-first P [] h = tt
OnSome-first P (x ∷ xs) (p, h) = p

module _ (tenant : Uuid) where
  is_row_of-BelongsTo : (id : Uuid) (r : Backup) → is_row_of id tenant r ≡ true → BelongsTo tenant r
  is_row_of-BelongsTo id r h = ground arith

  matches-BelongsTo :
      (status : Option String) (r : Backup) → matches tenant status r ≡ true → BelongsTo tenant r
  matches-BelongsTo none r h = ground arith
  matches-BelongsTo (some status) r h =
      let (same, _) = (and-eq-true_iff _ _).0 h in (==_iff _ _).0 same

  find-BelongsTo :
      (id : Uuid) (t : Table) → OnSome (BelongsTo tenant) (find (is_row_of id tenant) t)
  find-BelongsTo id [] = tt
  find-BelongsTo id (r ∷ t) = elim (Bool-cases (is_row_of id tenant r)) [
    | inl hit ↦ rw hit (is_row_of-BelongsTo id r hit)
    | inr miss ↦ rw miss (find-BelongsTo id t)
  ]

  select-BelongsTo :
      (status : Option String) (t : Table)
      → All (BelongsTo tenant) (select (matches tenant status) t)
  select-BelongsTo status [] = tt
  select-BelongsTo status (r ∷ t) = elim (Bool-cases (matches tenant status r)) [
    | inl hit ↦ rw hit (matches-BelongsTo status r hit, select-BelongsTo status t)
    | inr miss ↦ rw miss (select-BelongsTo status t)
  ]

  map_select-BelongsTo :
      (id : Uuid) (f : Backup → Backup) (t : Table)
      → ((r : Backup) → (f r).tenant_id ≡ r.tenant_id)
      → All (BelongsTo tenant) (map f (select (is_row_of id tenant) t))
  map_select-BelongsTo id f [] same = tt
  map_select-BelongsTo id f (r ∷ t) same = elim (Bool-cases (is_row_of id tenant r)) [
    | inl hit ↦
        rw hit
          (ground (arith, same r, is_row_of-BelongsTo id r hit), map_select-BelongsTo id f t same)
    | inr miss ↦ rw miss (map_select-BelongsTo id f t same)
  ]

module _ (tenant : Uuid) where
  All-Permᴰ :
      {xs ys : List Backup} → Permᴰ xs ys → All (BelongsTo tenant) xs → All (BelongsTo tenant) ys
  All-Permᴰ Permᴰ.nil h = h
  All-Permᴰ (Permᴰ.cons e d) (p, h) = (ap (λ b. b.tenant_id) (sym e) ∙ p, All-Permᴰ d h)
  All-Permᴰ (Permᴰ.swap {l = l} e f) (p, (q, h)) =
      (ap (λ b. b.tenant_id) (sym f) ∙ q, (ap (λ b. b.tenant_id) (sym e) ∙ p, h))
  All-Permᴰ (Permᴰ.trans d e) h = All-Permᴰ e (All-Permᴰ d h)

  BelongsTo-prop : (b : Backup) → IsProp (BelongsTo tenant b)
  BelongsTo-prop b = hlevel ℕ_set

  All-prop : (xs : List Backup) → IsProp (All (BelongsTo tenant) xs)
  All-prop [] = hlevel
  All-prop (x ∷ xs) = hlevel (BelongsTo-prop x, All-prop xs)

  All-Perm :
      (xs ys : List Backup) → Perm xs ys → All (BelongsTo tenant) ys → All (BelongsTo tenant) xs
  All-Perm xs ys p h = ∥∥₁_elim p (All-prop xs) (λ d. All-Permᴰ (Permᴰ.symm d) h)

  module _ (pg : Postgres) where
    pub insert_backup-Answers :
        (path : String) (encryption : Bool)
        → Answers (BelongsTo tenant) (insert_backup pg tenant path encryption)
    unfolding insert_backup
    insert_backup-Answers path encryption = record {
      at = λ a t t' x e. elim (Option-cases (find (has_id a.uuid) t)) [
        | inl fresh ↦
            let row : new_row tenant path encryption a ≡ x = ground arith in
            ap (λ b. b.tenant_id) (sym row)
        | inr (r, taken) ↦ absurd (ground arith)
      ];
    }

    pub select_backup-Answers :
        (id : Uuid) → Answers (OnSome (BelongsTo tenant)) (select_backup pg id tenant)
    unfolding select_backup
    select_backup-Answers id = record {
      at = λ a t t' x e.
          let row : find (is_row_of id tenant) t ≡ x = ground arith in
          subst (OnSome (BelongsTo tenant)) row (find-BelongsTo tenant id t);
    }

    pub select_page-Answers :
        (laws : IsPostgres pg) (status : Option String) (limit offset : ℤ)
        → Answers (All (BelongsTo tenant)) (select_page pg tenant status limit offset)
    unfolding select_page
    select_page-Answers laws status limit offset = record {
      at = λ a t t' x e.
          let rows = select (matches tenant status) t in
          let sorted = pg.order_by_created_at_desc rows in
          let own = All-take (BelongsTo tenant) (pos_part limit) (drop (pos_part offset) sorted) (
            All-drop (BelongsTo tenant) (pos_part offset) sorted
              (All-Perm sorted rows (laws.order_perm rows) (select-BelongsTo tenant status t))) in
          elim (Bool-cases (ltb_ℤ limit (pos 0) || ltb_ℤ offset (pos 0))) [
            | inl negative ↦ absurd (ground (arith, rw negative at e))
            | inr fine ↦
                let page : take (pos_part limit) (drop (pos_part offset) sorted) ≡ x =
                  ground (arith, rw fine at e) in
                subst (All (BelongsTo tenant)) page own
          ];
    }

    pub update_backup-Answers :
        (id : Uuid) (status : Option String) (size : Option ℤ)
        → Answers (All (BelongsTo tenant)) (update_backup pg id tenant status size)
    unfolding update_backup update_where
    update_backup-Answers id status size = record {
      at = λ a t t' x e.
          let write = λ (r : Backup). written status size a r in
          elim (Bool-cases
            (all (λ r. is_allowed r.status) (map write (select (is_row_of id tenant) t)))) [
              | inl fine ↦
                  let rows : map write (select (is_row_of id tenant) t) ≡ x = ground arith in
                  subst (All (BelongsTo tenant)) rows
                    (map_select-BelongsTo tenant id write t (λ _. refl))
              | inr refused ↦ absurd (ground arith)
            ];
    }
