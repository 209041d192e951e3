-- ===== src/Approvals/SingleUse.antt =====
-- An approval of src/agent/approvals/inbox.ts is used at most once.
use cli_model_gateway.Base.{
  ℕ, ◌+◌, ◌≤◌, ◌≡◌, refl, sym, ◌∙◌, String, Bool, true, false, Option, none, some, [], ◌∷◌, List,
  arith, ==_iff, values, get, set, ◌>>=◌, returns, throws, after, find-get, Bool-cases, inl, inr,
  nat_eq, string_eq, find,
}
use cli_model_gateway.Log.{Envelope, SealedLog}
use cli_model_gateway.Approvals.{
  State, pending, approved, consumed, InboxItem, is_pending, ApprovalInbox, Codec, decide,
  decide_item, approve, consume, consume_item, is_approved_for,
}
use cli_model_gateway.Approvals.Items.{IsAt, IsKeyed, IsKeyed-ids, set-IsKeyed, save_cases}
use cli_model_gateway.Approvals.Calls.{
  Call, requests, lists, approves, denies, consumes, logs, returned, returned_true, step, run,
  given, used, total_given, total_used,
}
use cli_model_gateway.Approvals.Open.{
  Within, open_approvals, open_approvals-set, list-Within, request-Within, deny-Within, Within-mono,
  only_for, item-IsAt, Result,
}

module _ {E B A : Type 0} (env : Envelope E B) (codec : Codec A B) (d : String) where
  -- What an `approve` of a pending item does to the open approvals.
  approve-Within :
      (n : ℕ) (clock : String → ℕ) (id : String) (s : ApprovalInbox E B A)
      → Within d n s.items
      → let r = approve env codec clock id s in
        Within d (n + only_for env codec d id (returned r)) (after r).items
  unfolding approve decide
  approve-Within n clock id s w =
      list-Within env codec d n
        (λ r. Q (
          (◌>>=◌ (λ (_ : ApprovalInbox E B A). r)
              (λ _ s'. decide_item env codec approved (get id s'.items) s'))
            s))
        (λ e s' v. refused e s' v) (λ s' v. decided (get id s'.items) s' v refl) clock s w
    where
      Q : Result env codec d (InboxItem A) → Type 0
      Q r = Within d (n + only_for env codec d id (returned r)) (after r).items

      refused : (e : String) (s' : ApprovalInbox E B A) → Within d n s'.items → Q (throws e s')
      refused e s' v =
          Within-mono env codec d n (n + only_for env codec d id 0) s'.items (omega arith) v

      written :
          (i : InboxItem A) (s' : ApprovalInbox E B A) (log : SealedLog E B)
          → Within d n s'.items
          → get id s'.items ≡ some i
          → IsAt id i
          → i.state ≡ pending
          → Q (
              returns
                (record i { state = approved })
                (record s' {
                  log = log;
                  items = set i.id (record i { state = approved }) s'.items;
                }))
      written i s' log v e at p = record {
        keyed = set-IsKeyed (record i { state = approved }) s'.items (at.0 ∙ sym at.1) v.keyed;
        bound = ground (
          arith,
          open_approvals-set d (record i { state = approved }) s'.items,
          v.bound,
          at.0,
          ==_iff id d,
          ==_iff i.id d,
        );
      }

      decided :
          (o : Option (InboxItem A)) (s' : ApprovalInbox E B A)
          → Within d n s'.items
          → get id s'.items ≡ o
          → Q (decide_item env codec approved o s')
      decided none s' v e = refused "Approval unavailable" s' v
      decided (some i) s' v e = elim (Bool-cases (is_pending i.state)) [
        | inl y ↦ rw y (
            save_cases env codec Q (record i { state = approved }) s'
              (λ err log. refused err (record s' { log = log }) v)
              λ log.
                written i s' log v e (item-IsAt env codec d n id i s'.items v e)
                  (pending_of i.state y))
        | inr x ↦ rw x (refused "Approval unavailable" s' v)
      ]
        where
          pending_of : (st : State) → is_pending st ≡ true → st ≡ pending
          pending_of st h = ground arith

  -- What a `consume` pays with.
  consume-Within :
      (n : ℕ) (clock : String → ℕ) (digest : String) (s : ApprovalInbox E B A)
      → Within d n s.items
      → let r = consume env codec clock digest s in
        IsKeyed (after r).items
        × (only_for env codec d digest (returned_true r) + open_approvals d (after r).items ≤ n)
  unfolding consume
  consume-Within n clock digest s w =
      list-Within env codec d n
        (λ r. Q (
          (◌>>=◌ (λ (_ : ApprovalInbox E B A). r)
              (λ is. consume_item env codec (find (is_approved_for env codec digest) is)))
            s))
        (λ e s' v. kept (throws e s') v refl)
        (λ s' v. consumed_of (find (is_approved_for env codec digest) (values s'.items)) s' v refl)
        clock s w
    where
      Q : Result env codec d Bool → Type 0
      Q r =
          IsKeyed (after r).items
          × (only_for env codec d digest (returned_true r) + open_approvals d (after r).items ≤ n)

      kept : (r : Result env codec d Bool) → Within d n (after r).items → returned_true r ≡ 0 → Q r
      kept r v e = (v.keyed, ground (arith, v.bound))

      written :
          (i : InboxItem A) (s' : ApprovalInbox E B A) (log : SealedLog E B)
          → Within d n s'.items
          → get i.id s'.items ≡ some i
          → is_approved_for env codec digest i ≡ true
          → IsAt i.id i
          → Q (
              returns true (record s' {
                log = log;
                items = set i.id (record i { state = consumed }) s'.items;
              }))
      written i s' log v e h at = (
        set-IsKeyed (record i { state = consumed }) s'.items (sym at.1) v.keyed,
        ground (
          arith,
          open_approvals-set d (record i { state = consumed }) s'.items,
          v.bound,
          at.1,
          ==_iff digest d,
          ==_iff i.action_digest digest,
          ==_iff i.id d,
        ),
      )

      consumed_of :
          (o : Option (InboxItem A)) (s' : ApprovalInbox E B A)
          → Within d n s'.items
          → find (is_approved_for env codec digest) (values s'.items) ≡ o
          → Q (consume_item env codec o s')
      consumed_of none s' v e = kept (returns false s') v refl
      consumed_of (some i) s' v e =
          let (found, holds) =
            find-get (λ (x : InboxItem A). x.id) (is_approved_for env codec digest) s'.items {v = i}
              v.keyed.unique (IsKeyed-ids v.keyed) e in
          save_cases env codec
            (λ r. Q ((◌>>=◌ (λ (_ : ApprovalInbox E B A). r) (λ _ s'. returns true s')) s'))
            (record i { state = consumed }) s'
            (λ err log. kept (throws err (record s' { log = log })) v refl)
            λ log. written i s' log v found holds (item-IsAt env codec d n i.id i s'.items v found)

  -- One call.
  step-Within :
      (s : ApprovalInbox E B A) (c : Call A B)
      → IsKeyed s.items
      → IsKeyed (step env codec s c).items
        × (used env codec d s c + open_approvals d (step env codec s c).items
            ≤ given env codec d s c + open_approvals d s.items)
  unfolding step used given
  step-Within s (requests clock created later action) v =
      let w =
        request-Within env codec d (open_approvals d s.items) clock created later action s
          (record { keyed = v; bound = omega arith }) in
      (w.keyed, omega (arith, w.bound))
  step-Within s (lists clock) v =
      let w =
        list-Within env codec d (open_approvals d s.items)
          (λ r. Within d (open_approvals d s.items) (after r).items) (λ e s' u. u) (λ s' u. u) clock
          s (record { keyed = v; bound = omega arith }) in
      (w.keyed, omega (arith, w.bound))
  step-Within s (approves clock id) v =
      let w =
        approve-Within (open_approvals d s.items) clock id s
          (record { keyed = v; bound = omega arith }) in
      (w.keyed, omega (arith, w.bound))
  step-Within s (denies clock id) v =
      let w =
        deny-Within env codec d (open_approvals d s.items) clock id s
          (record { keyed = v; bound = omega arith }) in
      (w.keyed, omega (arith, w.bound))
  step-Within s (consumes clock digest) v =
      let (v', w) =
        consume-Within (open_approvals d s.items) clock digest s
          (record { keyed = v; bound = omega arith }) in
      (v', omega (arith, w))
  step-Within s (logs type id body) v = (v, omega arith)

  run-Within :
      (s : ApprovalInbox E B A) (cs : List (Call A B))
      → IsKeyed s.items
      → total_used env codec d s cs + open_approvals d (run env codec s cs).items
        ≤ total_given env codec d s cs + open_approvals d s.items
  unfolding run total_used total_given
  run-Within s [] v = omega arith
  run-Within s (c ∷ cs) v =
      let (v', one) = step-Within s c v in
      let more = run-Within (step env codec s c) cs v' in omega arith

  -- However the calls of an inbox that starts with no item are ordered, and whichever of them throw,
  -- `consume` succeeds for an action at most as often as `approve` did.
  pub total_used-le-total_given :
      (s : ApprovalInbox E B A) (cs : List (Call A B))
      → s.items ≡ []
      → total_used env codec d s cs ≤ total_given env codec d s cs
  total_used-le-total_given s cs e =
      let start : IsKeyed s.items = rw e (record { unique = tt; own = tt }) in
      let none_open : open_approvals d s.items ≡ 0 = unfold get in rw e refl in
      omega (arith, run-Within s cs start)
