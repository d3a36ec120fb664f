-- ===== src/Queue/Exclusive.antt =====
-- The leases of app/crawl/repository.py: one lease for an origin, and a lease for every leased
-- task; and how the single statements keep that.
pub mod Ends
pub mod Works
pub mod Lease
pub mod Jobs
pub mod Retry
pub mod Spending
pub mod Claims
use crawltrove.Base.{
  ℕ, ◌≡◌, refl, sym, ap, ◌∙◌, subst, String, Bool, true, false, Option, some, List, [], ◌∷◌, ◌++◌,
  Bool-cases, inl, inr, update_where, delete_where, All, Any, Row, Distinct, All-weaken,
  All-update_where, All-append, Any-append, Any-last, Any-delete_where, Any-update_where, All-zip,
  Distinct-append, Distinct-delete_where, Distinct-update_where, Distinct-All,
}
use crawltrove.Queue.States.{is_leased}
use crawltrove.Queue.Rows.{Task, OriginLease, Db}

-- The lease is the one under which the task is held.
pub record IsLeaseFor (t : Task) (l : OriginLease) : Type 0 where
  pub task_id : l.task_id ≡ t.id
  pub origin_key : l.origin_key ≡ t.origin_key
  pub token : t.lease_token ≡ some l.lease_token

abbrev pub HasLease : List OriginLease → Task → Type 0
HasLease leases t = is_leased t.state ≡ true → Any (IsLeaseFor t) leases

pub record IsExclusive (tasks : List Task) (leases : List OriginLease) : Type 0 where
  pub origins : Distinct (λ (l : OriginLease). l.origin_key) leases
  pub held : All (HasLease leases) tasks

abbrev pub Exclusive : Db → Type 0
Exclusive db = IsExclusive db.tasks db.leases

-- A task that is leased after the update was the same lease before.
pub record SameLease (s t : Task) : Type 0 where
  pub id : s.id ≡ t.id
  pub origin_key : s.origin_key ≡ t.origin_key
  pub token : s.lease_token ≡ t.lease_token
  pub leased : is_leased t.state ≡ true

pub SameLease-IsLeaseFor :
    (s t : Task) (l : OriginLease) → SameLease s t → IsLeaseFor t l → IsLeaseFor s l
SameLease-IsLeaseFor s t l e h = record {
  task_id = h.task_id ∙ sym e.id;
  origin_key = h.origin_key ∙ sym e.origin_key;
  token = e.token ∙ h.token;
}

abbrev pub KeepsLease : (Task → Bool) → (Task → Task) → Type 0
KeepsLease p f = (t : Task) → p t ≡ true → is_leased (f t).state ≡ true → SameLease (f t) t

module _ {tasks : List Task} {leases : List OriginLease} where
  -- An UPDATE of tasks that makes no lease.
  pub Exclusive-tasks :
      (p : Task → Bool) (f : Task → Task)
      → KeepsLease p f
      → IsExclusive tasks leases
      → IsExclusive (update_where p f tasks) leases
  Exclusive-tasks p f keeps h = record {
    origins = h.origins;
    held =
        All-update_where p f tasks
          (λ t k e leased.
            let same = keeps t e leased in
            any_map leases (λ l. SameLease-IsLeaseFor (f t) t l same) (k same.leased))
          (λ t k e. k) h.held;
  }
    where
      any_map :
          {P Q : OriginLease → Type 0} (ls : List OriginLease)
          → ((l : OriginLease) → P l → Q l)
          → Any P ls
          → Any Q ls
      any_map [] k a = absurd a
      any_map (l ∷ ls) k (inl a) = inl (k l a)
      any_map (l ∷ ls) k (inr a) = inr (any_map ls k a)

  -- The end of a lease: the tasks of the leases that the DELETE matches are no longer leased.
  pub Exclusive-end :
      (p : Task → Bool) (f : Task → Task) (q : OriginLease → Bool)
      → ((t : Task) → p t ≡ true → is_leased (f t).state ≡ false)
      → ((t : Task) (l : OriginLease) → p t ≡ false → IsLeaseFor t l → q l ≡ false)
      → IsExclusive tasks leases
      → IsExclusive (update_where p f tasks) (delete_where q leases)
  Exclusive-end p f q frees spares h = record {
    origins = Distinct-delete_where _ q leases h.origins;
    held =
        All-update_where p f tasks (λ t k e leased. absurd (unleased t (frees t e) leased))
          (λ t k e leased. Any-delete_where _ q leases (λ l a. spares t l e a) (k leased)) h.held;
  }
    where
      unleased : (t : Task) → is_leased (f t).state ≡ false → is_leased (f t).state ≡ true → ⊥
      unleased t a b = cc

  -- A lease for one task on an origin that has none.
  pub Exclusive-lease :
      (t : Task) (p : Task → Bool) (f : Task → Task) (l : OriginLease)
      → ((x : Task) → p x ≡ true → x.id ≡ t.id)
      → IsLeaseFor (f t) l
      → Row t tasks
      → Distinct (λ (x : Task). x.id) tasks
      → All (λ (x : OriginLease). ¬ (x.origin_key ≡ l.origin_key)) leases
      → IsExclusive tasks leases
      → IsExclusive (update_where p f tasks) (leases ++ l ∷ [])
  Exclusive-lease t p f l only lease row ids alone h = record {
    origins = Distinct-append _ leases l alone h.origins;
    held =
        All-update_where p f tasks
          (λ x k e _.
            Any-last _ leases l (subst (λ y. IsLeaseFor (f y) l) (sym (k.1 (only x e))) lease))
          (λ x k e leased. Any-append _ leases l (k.0 leased))
          (All-zip _ _ tasks h.held (Distinct-All (λ (x : Task). x.id) t tasks ids row));
  }

  -- An INSERT of a task.
  pub Exclusive-insert :
      (t : Task)
      → is_leased t.state ≡ false
      → IsExclusive tasks leases
      → IsExclusive (tasks ++ t ∷ []) leases
  Exclusive-insert t free h = record {
    origins = h.origins;
    held = All-append _ tasks t h.held (λ leased. absurd (idle leased));
  }
    where
      idle : is_leased t.state ≡ true → ⊥
      idle e = cc

  -- An UPDATE of leases that leaves what they are for.
  pub Exclusive-leases :
      (p : OriginLease → Bool) (f : OriginLease → OriginLease)
      → ((t : Task) (l : OriginLease) → IsLeaseFor t l → IsLeaseFor t (f l))
      → ((l : OriginLease) → (f l).origin_key ≡ l.origin_key)
      → IsExclusive tasks leases
      → IsExclusive tasks (update_where p f leases)
  Exclusive-leases p f keeps origins h = record {
    origins = Distinct-update_where _ p f leases origins h.origins;
    held =
        All-weaken tasks (λ t k leased. Any-update_where _ p f leases (keeps t) (k leased)) h.held;
  }
