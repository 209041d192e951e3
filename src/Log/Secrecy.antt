-- ===== src/Log/Secrecy.antt =====
-- No secret reaches the log of src/agent/store/sealed-log.ts.
use cli_model_gateway.Base.{
  append-nil, append_assoc, take-append-drop, ℕ, ◌≡◌, refl, sym, ap, ◌∙◌, subst, String, Bool, true,
  false, not, Option, none, some, [], ◌∷◌, ◌++◌, List, if◌then◌else◌, Outcome, returns, throws,
  after, Bool-cases, inl, inr, nat_eq, string_eq, take, drop, All,
}
use cli_model_gateway.Checker.Secrets.{has_secret, has_secret-append}
use cli_model_gateway.Log.{
  LogRecord, Envelope, SealedLog, is_chained, open_lines, append_text, append, replay,
}
use cli_model_gateway.Log.Replay.{IsSound, append-IsSound, replay-IsSound}

module _ {E B : Type 0} (env : Envelope E B) where
  open env use {text}

  -- A log with an empty file, opened.
  abbrev pub new_log : String → SealedLog E B
  new_log id = record { log_id = id; records = []; file = []; cut = false; closed = false }

  -- Calls of `append` with a type, an id and a body; what they throw is caught.
  abbrev pub appends : List (String × String × B) → SealedLog E B → SealedLog E B
  appends [] log = log
  appends ((type, id, body) ∷ calls) log = appends calls (after (append env type id body log))

  abbrev pub bodies : List (LogRecord B) → List B
  bodies [] = []
  bodies (r ∷ rs) = r.body ∷ bodies rs

  abbrev is_fit : Option (List ℕ) → Bool
  is_fit none = false
  is_fit (some t) = not (has_secret t)

  -- The bodies that have a text with no secret in it.
  abbrev pub fit_bodies : List (String × String × B) → List B
  fit_bodies [] = []
  fit_bodies ((type, id, body) ∷ calls) =
      if is_fit (text body) then body ∷ fit_bodies calls else fit_bodies calls

  -- The body has a text, and no part of it, from any place and of any length, is found to have a secret.
  abbrev pub IsClean : B → Type 0
  IsClean body =
      (t : List ℕ) × (text body ≡ some t) × ((i n : ℕ) → has_secret (take n (drop i t)) ≡ false)

  bodies-concat :
      (rs : List (LogRecord B)) (r : LogRecord B) → bodies (rs ++ r ∷ []) ≡ bodies rs ++ r.body ∷ []
  bodies-concat [] r = refl
  bodies-concat (x ∷ rs) r = rw (bodies-concat rs r) refl

  new_log-IsSound : (id : String) → IsSound env (new_log id)
  unfolding is_chained open_lines
  new_log-IsSound id = record { chained = refl; stored = refl; whole = refl }

  appends-IsSound :
      (calls : List (String × String × B)) (log : SealedLog E B)
      → IsSound env log
      → IsSound env (appends calls log)
  appends-IsSound [] log s = s
  appends-IsSound ((type, id, body) ∷ calls) log s =
      appends-IsSound calls (after (append env type id body log))
        (append-IsSound env type id body log s)

  bodies-append_text :
      (type id : String) (body : B) (o : Option (List ℕ)) (log : SealedLog E B)
      → ((after (append_text env type id body o log)).closed ≡ log.closed)
        × (bodies (after (append_text env type id body o log)).records
            ≡ bodies log.records ++ (if is_fit o then body ∷ [] else []))
  bodies-append_text type id body none log = (refl, sym (append-nil (bodies log.records)))
  bodies-append_text type id body (some t) log = elim (Bool-cases (has_secret t)) [
    | inl y ↦ rw y (refl, sym (append-nil (bodies log.records)))
    | inr n ↦ rw n (refl, bodies-concat log.records _)
  ]

  bodies-append :
      (type id : String) (body : B) (log : SealedLog E B)
      → log.closed ≡ false
      → ((after (append env type id body log)).closed ≡ false)
        × (bodies (after (append env type id body log)).records
            ≡ bodies log.records ++ (if is_fit (text body) then body ∷ [] else []))
  unfolding append
  bodies-append type id body log o =
      let written : Outcome (SealedLog E B) (LogRecord B) =
        append_text env type id body (text body) log in
      let same : append env type id body log ≡ written =
        ap (λ b. if b then throws "Log closed" log else written) o in
      let (open_, one) = bodies-append_text type id body (text body) log in
      (
        ap (λ (x : Outcome (SealedLog E B) (LogRecord B)). (after x).closed) same ∙ open_ ∙ o,
        ap (λ (x : Outcome (SealedLog E B) (LogRecord B)). bodies (after x).records) same ∙ one,
      )

  bodies-appends :
      (calls : List (String × String × B)) (log : SealedLog E B)
      → log.closed ≡ false
      → bodies (appends calls log).records ≡ bodies log.records ++ fit_bodies calls
  bodies-appends [] log o = sym (append-nil (bodies log.records))
  bodies-appends ((type, id, body) ∷ calls) log o =
      let (open_, one) = bodies-append type id body log o in
      let rest = bodies-appends calls (after (append env type id body log)) open_ in
      rest ∙ ap (λ bs. bs ++ fit_bodies calls) one ∙ added (is_fit (text body))
    where
      added :
          (b : Bool)
          → bodies log.records ++ (if b then body ∷ [] else []) ++ fit_bodies calls
            ≡ bodies log.records ++ (if b then body ∷ fit_bodies calls else fit_bodies calls)
      added true = append_assoc (bodies log.records) (body ∷ []) (fit_bodies calls)
      added false = rw (append-nil (bodies log.records)) refl

  has_secret-part :
      (t : List ℕ) (i n : ℕ) → has_secret t ≡ false → has_secret (take n (drop i t)) ≡ false
  has_secret-part t i n h = elim (Bool-cases (has_secret (take n (drop i t)))) [
    | inl y ↦
        let whole : take i t ++ (take n (drop i t) ++ drop n (drop i t)) ≡ t =
          rw (take-append-drop n (drop i t)) (take-append-drop i t) in
        let found = has_secret-append (take i t) (take n (drop i t)) (drop n (drop i t)) y in
        let t_found : has_secret t ≡ true = ap has_secret (sym whole) ∙ found in absurd (cc)
    | inr clean ↦ clean
  ]

  fit_bodies-IsClean : (calls : List (String × String × B)) → All IsClean (fit_bodies calls)
  fit_bodies-IsClean [] = tt
  fit_bodies-IsClean ((type, id, body) ∷ calls) = go (text body) refl (fit_bodies-IsClean calls)
    where
      go :
          (o : Option (List ℕ))
          → text body ≡ o
          → All IsClean (fit_bodies calls)
          → All IsClean (if is_fit o then body ∷ fit_bodies calls else fit_bodies calls)
      go none e rest = rest
      go (some t) e rest = elim (Bool-cases (has_secret t)) [
        | inl y ↦ rw y rest
        | inr n ↦ rw n ((t, e, λ i k. has_secret-part t i k n), rest)
      ]

  -- After any calls of `append` on a new log, opening its file finds the records that it has in memory.
  -- Their bodies are, in the order of the calls, those that have a text with no secret in it; and no part
  -- of the text of any of them is found to have a secret.
  pub replay-appends :
      (log_id : String) (calls : List (String × String × B))
      → (replay env (appends calls (new_log log_id))
          ≡ returns (appends calls (new_log log_id)).records (appends calls (new_log log_id)))
        × (bodies (appends calls (new_log log_id)).records ≡ fit_bodies calls)
        × All IsClean (bodies (appends calls (new_log log_id)).records)
  replay-appends log_id calls =
      let same = bodies-appends calls (new_log log_id) refl in
      (
        replay-IsSound env (appends calls (new_log log_id))
            (appends-IsSound calls (new_log log_id) (new_log-IsSound log_id)),
        same,
        subst (All IsClean) (sym same) (fit_bodies-IsClean calls),
      )
