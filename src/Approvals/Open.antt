-- ===== src/Approvals/Open.antt =====
-- How many approvals of an action are open, and which calls of src/agent/approvals/inbox.ts keep that.
use cli_model_gateway.Base.{
  ℕ, ◌≤◌, ◌≡◌, refl, sym, ◌∙◌, String, false, Option, none, some, List, arith, ◌==◌, if◌then◌else◌,
  Table, values, get, set, Outcome, ◌>>=◌, returns, throws, after, get-set, Each-get, nat_eq,
  string_eq, find,
}
use cli_model_gateway.Log.{Envelope}
use cli_model_gateway.Approvals.{
  denied, expired, InboxItem, is_approved, ApprovalInbox, Codec, save, list, request, request_new,
  decide, decide_item, deny, is_open_for,
}
use cli_model_gateway.Approvals.Items.{Own, IsAt, IsKeyed, set-IsKeyed, save_cases, list_cases}

module _ {A : Type 0} where
  -- 1 while the digest's item is approved.
  abbrev pub worth : Option (InboxItem A) → ℕ
  worth none = 0
  worth (some i) = if is_approved i.state then 1 else 0

  abbrev pub open_approvals : String → Table String (InboxItem A) → ℕ
  open_approvals d t = worth (get d t)

  pub open_approvals-set :
      (d : String) (i : InboxItem A) (t : Table String (InboxItem A))
      → open_approvals d (set i.id i t) ≡ (if i.id == d then worth (some i) else open_approvals d t)
  open_approvals-set d i t = ground (arith, get-set i.id d i t)

  -- At most `n` approvals of the digest are open, in items that stand under their keys.
  pub record Within (d : String) (n : ℕ) (t : Table String (InboxItem A)) : Type 0 where
    pub keyed : IsKeyed t
    pub bound : open_approvals d t ≤ n

  pub set-Within :
      (d : String) (n : ℕ) (i : InboxItem A) (t : Table String (InboxItem A))
      → Own i
      → is_approved i.state ≡ false
      → Within d n t
      → Within d n (set i.id i t)
  set-Within d n i t o c w = record {
    keyed = set-IsKeyed i t o w.keyed;
    bound = ground (arith, open_approvals-set d i t, w.bound);
  }

module _ {E B A : Type 0} (env : Envelope E B) (codec : Codec A B) (d : String) where
  abbrev pub Result : Type 0 → Type 0
  Result = Outcome (ApprovalInbox E B A)

  -- `list` opens no approval.
  pub list-Within :
      (n : ℕ) (Q : Result (List (InboxItem A)) → Type 0)
      → ((e : String) (s : ApprovalInbox E B A) → Within d n s.items → Q (throws e s))
      → ((s : ApprovalInbox E B A) → Within d n s.items → Q (returns (values s.items) s))
      → (clock : String → ℕ) (s : ApprovalInbox E B A) → Within d n s.items
      → Q (list env codec clock s)
  list-Within n Q bad good clock s w =
      list_cases env codec (Within d n)
        (λ i t o v. set-Within d n (record i { state = expired }) t o refl v) Q bad good clock s
        w.keyed w

  pub save-Within :
      (n : ℕ) (i : InboxItem A) (s : ApprovalInbox E B A)
      → Own i
      → is_approved i.state ≡ false
      → Within d n s.items
      → Within d n (after (save env codec i s)).items
  save-Within n i s o c w =
      save_cases env codec (λ r. Within d n (after r).items) i s (λ e log. w)
        λ log. set-Within d n i s.items o c w

  pub request-Within :
      (n : ℕ) (clock : String → ℕ) (created later : ℕ) (action : A) (s : ApprovalInbox E B A)
      → Within d n s.items
      → Within d n (after (request env codec clock created later action s)).items
  unfolding request
  request-Within n clock created later action s w =
      list-Within n
        (λ r.
          Within d n
            (after (
              (◌>>=◌ (λ (_ : ApprovalInbox E B A). r)
                  (λ is.
                    request_new env codec created later action
                      (find (is_open_for env codec (codec.digest action)) is)))
                s)).items)
        (λ e s' v. v)
        (λ s' v. new (find (is_open_for env codec (codec.digest action)) (values s'.items)) s' v)
        clock s w
    where
      new :
          (o : Option (InboxItem A)) (s' : ApprovalInbox E B A)
          → Within d n s'.items
          → Within d n (after (request_new env codec created later action o s')).items
      new (some i) s' v = v
      new none s' v = save-Within n _ s' refl refl v

  pub Within-mono : (m n : ℕ) (t : Table String (InboxItem A)) → m ≤ n → Within d m t → Within d n t
  Within-mono m n t h w = record { keyed = w.keyed; bound = omega (arith, w.bound) }

  abbrev pub only_for : String → ℕ → ℕ
  only_for id k = if id == d then k else 0

  pub item-IsAt :
      (n : ℕ) (id : String) (i : InboxItem A) (t : Table String (InboxItem A))
      → Within d n t
      → get id t ≡ some i
      → IsAt id i
  item-IsAt n id i t w e = Each-get IsAt id t w.keyed.own e

  pub deny-Within :
      (n : ℕ) (clock : String → ℕ) (id : String) (s : ApprovalInbox E B A)
      → Within d n s.items
      → Within d n (after (deny env codec clock id s)).items
  unfolding deny decide
  deny-Within n clock id s w =
      list-Within n
        (λ r.
          Within d n
            (after (
              (◌>>=◌ (λ (_ : ApprovalInbox E B A). r)
                  (λ _ s'. decide_item env codec denied (get id s'.items) s'))
                s)).items)
        (λ e s' v. v) (λ s' v. decided (get id s'.items) s' v refl) clock s w
    where
      decided :
          (o : Option (InboxItem A)) (s' : ApprovalInbox E B A)
          → Within d n s'.items
          → get id s'.items ≡ o
          → Within d n (after (decide_item env codec denied o s')).items
      decided none s' v e = v
      decided (some i) s' v e =
          let at = item-IsAt n id i s'.items v e in
          ground (arith, save-Within n (record i { state = denied }) s' (at.0 ∙ sym at.1) refl v)
