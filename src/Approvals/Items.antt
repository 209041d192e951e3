-- ===== src/Approvals/Items.antt =====
-- What the calls of src/agent/approvals/inbox.ts keep of the items.
use cli_model_gateway.Base.{
  ℕ, ◌≡◌, refl, sym, ◌∙◌, String, [], ◌∷◌, List, Table, Each, values, set, Outcome, ◌>>=◌, returns,
  throws, Each-mono, Each-values, IsUnique, set-IsUnique, Each-set, Bool-cases, inl, inr, nat_eq,
  string_eq, All,
}
use cli_model_gateway.Log.{LogRecord, Envelope, SealedLog}
use cli_model_gateway.Approvals.{
  expired, InboxItem, ApprovalInbox, Codec, put_item, save, has_run_out, expire_items, list,
}

module _ {A : Type 0} where
  -- An item stands under its identifier, which is the digest of its action.
  abbrev pub Own : InboxItem A → Type 0
  Own i = i.id ≡ i.action_digest

  abbrev pub IsAt : String → InboxItem A → Type 0
  IsAt k i = (i.id ≡ k) × (i.action_digest ≡ k)

  pub record IsKeyed (t : Table String (InboxItem A)) : Type 0 where
    pub unique : IsUnique t
    pub own : Each IsAt t

  pub IsKeyed-ids : {t : Table String (InboxItem A)} → IsKeyed t → Each (λ k i. i.id ≡ k) t
  IsKeyed-ids {t} v = Each-mono IsAt (λ k i. i.id ≡ k) (λ k i p. p.0) t v.own

  pub IsKeyed-Own : {t : Table String (InboxItem A)} → IsKeyed t → All Own (values t)
  IsKeyed-Own {t} v = Each-values IsAt Own (λ k i p. p.0 ∙ sym p.1) t v.own

  pub set-IsKeyed :
      (i : InboxItem A) (t : Table String (InboxItem A))
      → Own i
      → IsKeyed t
      → IsKeyed (set i.id i t)
  set-IsKeyed i t o v = record {
    unique = set-IsUnique i.id i t v.unique;
    own = Each-set IsAt i.id i t (refl, sym o) v.own;
  }

module _ {E B A : Type 0} (env : Envelope E B) (codec : Codec A B) where
  abbrev Result : Type 0 → Type 0
  Result = Outcome (ApprovalInbox E B A)

  put_item_cases :
      (Q : Result (InboxItem A) → Type 0) (item : InboxItem A) (s : ApprovalInbox E B A)
      → ((e : String) (log : SealedLog E B) → Q (throws e (record s { log = log })))
      → ((log : SealedLog E B)
          → Q (returns item (record s { log = log; items = set item.id item s.items })))
      → (o : Outcome (SealedLog E B) (LogRecord B)) → Q (put_item env codec item s o)
  put_item_cases Q item s bad good (throws e log) = bad e log
  put_item_cases Q item s bad good (returns r log) = good log

  -- `save` throws and leaves the items, or writes the item under its identifier.
  pub save_cases :
      (Q : Result (InboxItem A) → Type 0) (item : InboxItem A) (s : ApprovalInbox E B A)
      → ((e : String) (log : SealedLog E B) → Q (throws e (record s { log = log })))
      → ((log : SealedLog E B)
          → Q (returns item (record s { log = log; items = set item.id item s.items })))
      → Q (save env codec item s)
  unfolding save
  save_cases Q item s bad good = put_item_cases Q item s bad good _

  -- What expiring an item keeps, `list` keeps, whether it returns or throws half way.
  module _ (P : Table String (InboxItem A) → Type 0)
      (expiry : (i : InboxItem A) (t : Table String (InboxItem A))
        → Own i
        → P t
        → P (set i.id (record i { state = expired }) t)) where
    expire_items_cases :
        (Q : Result (Unit {0}) → Type 0)
        → ((e : String) (s : ApprovalInbox E B A) → P s.items → Q (throws e s))
        → ((s : ApprovalInbox E B A) → P s.items → Q (returns tt s))
        → (clock : String → ℕ) (is : List (InboxItem A)) (s : ApprovalInbox E B A) → All Own is
        → P s.items
        → Q (expire_items env codec clock is s)
    unfolding expire_items
    expire_items_cases Q bad good clock [] s o p = good s p
    expire_items_cases Q bad good clock (i ∷ is) s (o, os) p =
        elim (Bool-cases (has_run_out env codec clock i)) [
          | inl y ↦ rw y (
              save_cases
                (λ r. Q (
                  (◌>>=◌ (λ (_ : ApprovalInbox E B A). r) (λ _. expire_items env codec clock is))
                    s))
                (record i { state = expired }) s (λ e log. bad e (record s { log = log }) p)
                λ log. expire_items_cases Q bad good clock is _ os (expiry i s.items o p))
          | inr n ↦ rw n (expire_items_cases Q bad good clock is s os p)
        ]

    pub list_cases :
        (Q : Result (List (InboxItem A)) → Type 0)
        → ((e : String) (s : ApprovalInbox E B A) → P s.items → Q (throws e s))
        → ((s : ApprovalInbox E B A) → P s.items → Q (returns (values s.items) s))
        → (clock : String → ℕ) (s : ApprovalInbox E B A) → IsKeyed s.items
        → P s.items
        → Q (list env codec clock s)
    unfolding list
    list_cases Q bad good clock s v p =
        expire_items_cases
          (λ r.
            Q ((◌>>=◌ (λ (_ : ApprovalInbox E B A). r) (λ _ s'. returns (values s'.items) s')) s))
          bad good clock (values s.items) s (IsKeyed-Own v) p
