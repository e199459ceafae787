-- ===== src/Migrations/Sent.antt =====
-- What a sent command leaves of the catalog.
use mathlib.Core.Path.{subst}
use backup_service.Common.{◌≡◌, ap, String, Result, ok, err}
use backup_service.Common.Outcome.Keeps.{Keeps}
use backup_service.Common.Outcome.Achieves.{Achieves}
use backup_service.Services.{Attempt, Link, up, refused, lost, Postgres}
use backup_service.Db.{deliver, table_after, answer}
use backup_service.Migrations.{Catalog, Session, Command, sent}

-- What holds of the catalog that a run leaves, if it is no error.
abbrev pub After : {A : Type 0} → Result (A × Catalog) String → (A → Catalog → Type 0) → Type 0
After (ok (x, c)) Q = Q x c
After (err e) Q = Unit

pub After-fst :
    {A : Type 0} (P Q : Catalog → Type 0) (r : Result (A × Catalog) String)
    → After r (λ _ c. P c × Q c)
    → After r (λ _. P)
After-fst P Q (ok (x, c)) h = h.0
After-fst P Q (err e) h = tt

-- What holds after the run of a command from a state with `P`.
abbrev pub Gives : {A : Type 0} → (Catalog → Type 0) → Command A → (A → Catalog → Type 0) → Type 0
Gives P command Q = (a : Attempt) (c : Catalog) → P c → After (command a c) Q

module _ (pg : Postgres) {A : Type 0} (command : Command A) where
  module _ (P Q : Catalog → Type 0) (weaken : (c : Catalog) → P c → Q c)
      (gives : Gives P command (λ _. Q)) where
    table_after-Q :
        (c : Catalog) (r : Result (A × Catalog) String)
        → After r (λ _. Q)
        → P c
        → Q (table_after r c)
    table_after-Q c (ok (x, c')) after p = after
    table_after-Q c (err e) _ p = weaken c p

    deliver_any : (a : Attempt) (c : Catalog) (l : Link) → P c → Q (deliver pg command a c l).1
    deliver_any a c up p = table_after-Q c (command a c) (gives a c p) p
    deliver_any a c (refused e) p = weaken c p
    deliver_any a c (lost e) p = table_after-Q c (command a c) (gives a c p) p

    -- What holds after a command, however it fares.
    pub sent_any : (w : Session pg) → P w.catalog → Q (sent pg command w).1.catalog
    unfolding sent
    sent_any w p = deliver_any (pg.attempt w.server) w.catalog (pg.attempt w.server).link p

  -- A command keeps what its run keeps.
  pub Keeps-sent :
      (P : Catalog → Type 0)
      → Gives P command (λ _. P)
      → Keeps (λ (w : Session pg). P w.catalog) (sent pg command)
  Keeps-sent P gives = record { at = λ w p. sent_any P P (λ c p. p) gives w p }

  module _ (P : Catalog → Type 0) (Q : A → Catalog → Type 0) (gives : Gives P command Q) where
    only : {x y : A} → ◌≡◌ {A = Result A String} (ok x) (ok y) → x ≡ y
    only e = cc

    answer-Q :
        (c : Catalog) (r : Result (A × Catalog) String)
        → After r Q
        → (x : A) → answer r ≡ ok x
        → Q x (table_after r c)
    answer-Q c (ok (x, c')) after y e = subst (λ a. Q a c') (only e) after
    answer-Q c (err e) _ y bad = cc

    deliver-Q :
        (a : Attempt) (c : Catalog) (l : Link)
        → P c
        → (x : A) → (deliver pg command a c l).0 ≡ ok x
        → Q x (deliver pg command a c l).1
    deliver-Q a c up p x e = answer-Q c (command a c) (gives a c p) x e
    deliver-Q a c (refused _) p x bad = cc
    deliver-Q a c (lost _) p x bad = cc

    pub Achieves-sent :
        Achieves (λ (w : Session pg). P w.catalog) (sent pg command) (λ a w. Q a w.catalog)
    unfolding sent
    Achieves-sent = record {
      at = λ w p. deliver-Q (pg.attempt w.server) w.catalog (pg.attempt w.server).link p;
    }

  deliver-up :
      (a : Attempt) (c c' : Catalog) (l : Link) (x : A)
      → l ≡ up
      → command a c ≡ ok (x, c')
      → deliver pg command a c l ≡ (ok x, c')
  deliver-up a c c' l x arrives runs = rw (arrives, runs)

  -- A command that is answered.
  pub sent-up :
      (w : Session pg) (c' : Catalog) (x : A)
      → (pg.attempt w.server).link ≡ up
      → command (pg.attempt w.server) w.catalog ≡ ok (x, c')
      → sent pg command w ≡ (ok x, record { catalog = c'; server = pg.next w.server })
  unfolding sent
  sent-up w c' x arrives runs =
      let a = pg.attempt w.server in
      ap (λ r. (r.0, record { catalog = r.1; server = pg.next w.server }))
        (deliver-up a w.catalog c' a.link x arrives runs)
