-- ===== src/Approvals.antt =====
-- src/agent/approvals/inbox.ts. `digest` is the hash of an action's canonical text; `wrap` and `unwrap`
-- are the view of an item as the body of a log record. Each call takes its readings of the clock: the
-- reading that `list` makes at an item is the value of `clock` at the item's identifier.
pub mod Items
pub mod Calls
pub mod Open
pub mod SingleUse
pub mod Durable
pub mod Tests
use cli_model_gateway.Base.{
  ℕ, zero, suc, ◌+◌, ◌-◌, ◌*◌, ◌/◌, ◌%◌, ◌<◌, ◌≤◌, min, max, ◌≡◌, ◌≢◌, refl, sym, ap, ◌∙◌, subst,
  String, Bool, true, false, not, ◌&&◌, ◌||◌, Option, none, some, [], ◌∷◌, ◌++◌, map, List, arith,
  leb, ltb, ◌==◌, ◌!=◌, ==_iff, ==_refl, if◌then◌else◌, Table, Each, keys, values, get, set, has,
  delete, Outcome, Act, pure, ◌>>=◌, ◌>>◌, returns, throws, after, get-set, get-set_self,
  get-delete, get-has, has-get, length-set, Each-mono, has-Each, IsUnique, set-IsUnique, find-get,
  find-get-none, Each-set, Each-delete, Each-get, Bool-cases, Option-cases, inl, inr, ◌⊎◌, ◌↔◌,
  nat_eq, string_eq, Eq, length, any, all, filter, codes, between, is_upper, is_lower, is_digit,
  Extends, starts, starts-Extends, anywhere, anywhere-append_left, anywhere-Extends, find,
  get_last?, get_elem?, take, drop, All, All-append, All-filter, All-find, length-append,
  length-drop, length-filter-le, find_holds, ltb→lt, leb→le,
}
use cli_model_gateway.Log.{LogRecord, Envelope, SealedLog, append, read_log}

pub data State : Type 0 where
  pending approved denied expired consumed : State

pub record InboxItem (A : Type 0) : Type 0 where
  pub id : String
  pub action_digest : String
  pub action : A
  pub created_at : ℕ
  pub expires_at : ℕ
  pub state : State

-- `["pending", "approved"].includes(state)`
abbrev pub is_open : State → Bool
is_open pending = true
is_open approved = true
is_open _ = false

abbrev pub is_approved : State → Bool
is_approved approved = true
is_approved _ = false

abbrev pub is_pending : State → Bool
is_pending pending = true
is_pending _ = false

pub record ApprovalInbox (E B A : Type 0) : Type 0 where
  pub log : SealedLog E B
  pub items : Table String (InboxItem A)
  pub ttl_ms : ℕ

-- The view of an item as the body of a log record, and the action's digest.
pub record Codec (A B : Type 0) : Type 0 where
  pub digest : A → String
  pub wrap : InboxItem A → B
  pub unwrap : B → InboxItem A
  pub unwrap-wrap : (i : InboxItem A) → unwrap (wrap i) ≡ i

module _ {E B A : Type 0} (env : Envelope E B) (codec : Codec A B) where
  open codec use {digest, wrap, unwrap}

  abbrev pub restore_one : Table String (InboxItem A) → LogRecord B → Table String (InboxItem A)
  restore_one items r =
      if r.type == "inbox" then set (unwrap r.body).id (unwrap r.body) items else items

  -- The loop of the constructor.
  unfoldable pub restore :
      Table String (InboxItem A) → List (LogRecord B) → Table String (InboxItem A)
  restore items [] = items
  restore items (r ∷ rs) = restore (restore_one items r) rs

  unfoldable pub new_inbox : SealedLog E B → ℕ → ApprovalInbox E B A
  unfolding restore
  new_inbox log ttl_ms = record {
    log = log;
    items = restore [] (read_log env 0 none log);
    ttl_ms = ttl_ms;
  }

  abbrev pub put_item :
      InboxItem A
      → ApprovalInbox E B A
      → Outcome (SealedLog E B) (LogRecord B)
      → Outcome (ApprovalInbox E B A) (InboxItem A)
  put_item item s (throws e log) = throws e (record s { log = log })
  put_item item s (returns r log) =
      returns item (record s { log = log; items = set item.id item s.items })

  unfoldable pub save : InboxItem A → Act (ApprovalInbox E B A) (InboxItem A)
  save item s = put_item item s (append env "inbox" item.id (wrap item) s.log)

  abbrev pub has_run_out : (String → ℕ) → InboxItem A → Bool
  has_run_out clock item = is_open item.state && leb item.expires_at (clock item.id)

  -- The loop of `list`. An item that the loop writes keeps its place and is not met again.
  unfoldable pub expire_items :
      (String → ℕ) → List (InboxItem A) → Act (ApprovalInbox E B A) (Unit {0})
  expire_items clock [] s = returns tt s
  expire_items clock (item ∷ items) s =
      let rest = expire_items clock items in
      if has_run_out clock item
      then (save (record item { state = expired }) >>= λ _. rest) s
      else rest s

  unfoldable pub list : (String → ℕ) → Act (ApprovalInbox E B A) (List (InboxItem A))
  list clock s = (expire_items clock (values s.items) >>= λ _ s'. returns (values s'.items) s') s

  abbrev pub is_open_for : String → InboxItem A → Bool
  is_open_for d i = i.action_digest == d && is_open i.state

  abbrev pub request_new :
      (created later : ℕ) → A → Option (InboxItem A) → Act (ApprovalInbox E B A) (InboxItem A)
  request_new created later action (some i) s = returns i s
  request_new created later action none s =
      save
        (record {
          id = digest action;
          action_digest = digest action;
          action = action;
          created_at = created;
          expires_at = later + s.ttl_ms;
          state = pending;
        })
        s

  unfoldable pub request :
      (clock : String → ℕ) (created later : ℕ) → A → Act (ApprovalInbox E B A) (InboxItem A)
  request clock created later action =
      list clock >>= λ is. request_new created later action (find (is_open_for (digest action)) is)

  abbrev pub decide_item : State → Option (InboxItem A) → Act (ApprovalInbox E B A) (InboxItem A)
  decide_item state none s = throws "Approval unavailable" s
  decide_item state (some i) s =
      if is_pending i.state
      then save (record i { state = state }) s
      else throws "Approval unavailable" s

  unfoldable pub decide :
      (clock : String → ℕ) → String → State → Act (ApprovalInbox E B A) (InboxItem A)
  decide clock id state = list clock >>= λ _ s. decide_item state (get id s.items) s

  unfoldable pub approve : (clock : String → ℕ) → String → Act (ApprovalInbox E B A) (InboxItem A)
  approve clock id = decide clock id approved

  unfoldable pub deny : (clock : String → ℕ) → String → Act (ApprovalInbox E B A) (InboxItem A)
  deny clock id = decide clock id denied

  abbrev pub is_approved_for : String → InboxItem A → Bool
  is_approved_for d i = i.action_digest == d && is_approved i.state

  abbrev pub consume_item : Option (InboxItem A) → Act (ApprovalInbox E B A) Bool
  consume_item none s = returns false s
  consume_item (some i) s = (save (record i { state = consumed }) >>= λ _ s'. returns true s') s

  unfoldable pub consume : (clock : String → ℕ) → String → Act (ApprovalInbox E B A) Bool
  consume clock d = list clock >>= λ is. consume_item (find (is_approved_for d) is)
