-- ===== src/Memory.antt =====
-- `AgentMemory` and `KeywordIndex` of src/agent/memory/index.ts. The key of a record, its layer and its id with a colon
-- between them, is the pair of the two, since no layer has a colon. The log is a parameter: it appends
-- a record or throws. The scores of the index, which are floating-point numbers made of word counts, are
-- a parameter with their order.
pub mod Restart
pub mod Retrieval
pub mod Tests
use cli_model_gateway.Base.{
  ℕ, zero, suc, ◌+◌, ◌-◌, ◌*◌, ◌/◌, ◌%◌, ◌<◌, ◌≤◌, min, max, ◌≡◌, ◌≢◌, refl, sym, ap, ◌∙◌, subst,
  String, Bool, true, false, not, ◌&&◌, ◌||◌, Option, none, some, [], ◌∷◌, ◌++◌, map, List, arith,
  leb, ltb, ◌==◌, ◌!=◌, ==_iff, ==_refl, if◌then◌else◌, Table, Each, keys, values, get, set, has,
  delete, Outcome, Act, pure, ◌>>=◌, ◌>>◌, returns, throws, after, get-set, get-set_self,
  get-delete, get-has, has-get, length-set, length-delete-le, get-set_cases, get-none-has,
  has-set_lem, has-delete, Each-mono, Each-values, has-Each, IsUnique, set-IsUnique, find-get,
  find-get-none, Each-set, Each-delete, Each-get, Bool-cases, Option-cases, inl, inr, ◌⊎◌, ◌↔◌,
  nat_eq, string_eq, Eq, length, any, all, filter, codes, between, is_upper, is_lower, is_digit,
  Extends, starts, starts-Extends, anywhere, anywhere-append_left, anywhere-Extends, find,
  get_last?, get_elem?, take, drop, All, All-append, All-filter, All-find, length-append,
  length-drop, length-filter-le, find_holds, ltb→lt, leb→le, is_space, trim, lower_text, includes,
}
use cli_model_gateway.Providers.Auto.{sort_by}

pub data MemoryLayer : Type 0 where
  caller_profile agent_profile journal facts : MemoryLayer

pub data MemoryStatus : Type 0 where
  proposed verified retracted : MemoryStatus

pub record Provenance : Type 0 where
  pub job_id : String
  pub receipt_id : Option String

pub record MemoryRecord : Type 0 where
  pub layer : MemoryLayer
  pub id : String
  pub text : List ℕ
  pub status : Option MemoryStatus
  pub source : Option String
  pub provenance : Option Provenance

abbrev pub layer_text : MemoryLayer → String
layer_text caller_profile = "caller_profile"
layer_text agent_profile = "agent_profile"
layer_text journal = "journal"
layer_text facts = "facts"

-- The records by layer and id; a write keeps the place of an old entry.
abbrev pub Records : Type 0
Records = List MemoryRecord

abbrev pub has_key : MemoryLayer → String → MemoryRecord → Bool
has_key layer id r = layer_text r.layer == layer_text layer && r.id == id

unfoldable pub put : MemoryRecord → Records → Records
put r [] = r ∷ []
put r (q ∷ qs) = if has_key r.layer r.id q then r ∷ qs else q ∷ put r qs

unfoldable pub put_all : List MemoryRecord → Records → Records
put_all [] qs = qs
put_all (r ∷ rs) qs = put_all rs (put r qs)

abbrev pub is_text : Option String → Bool
is_text none = false
is_text (some t) = t != ""

abbrev receipt_of : Option Provenance → Option String
receipt_of none = none
receipt_of (some p) = p.receipt_id

abbrev pub has_receipt : MemoryRecord → Bool
has_receipt r = is_text (receipt_of r.provenance)

abbrev fits : List (ℕ → Bool) → List ℕ → Bool
fits [] [] = true
fits (p ∷ ps) (c ∷ cs) = p c && fits ps cs
fits _ _ = false

-- `/^\d{4}-\d{2}-\d{2}$/`
abbrev pub is_date : String → Bool
is_date id =
    fits
      (is_digit
        ∷ is_digit
        ∷ is_digit
        ∷ is_digit
        ∷ (λ c. c == 45)
        ∷ is_digit
        ∷ is_digit
        ∷ (λ c. c == 45)
        ∷ is_digit
        ∷ is_digit
        ∷ [])
      (codes id)

abbrev pub is_profile : MemoryLayer → Bool
is_profile caller_profile = true
is_profile agent_profile = true
is_profile _ = false

abbrev pub is_journal : MemoryLayer → Bool
is_journal journal = true
is_journal _ = false

abbrev pub is_facts : MemoryLayer → Bool
is_facts facts = true
is_facts _ = false

abbrev pub is_verified : Option MemoryStatus → Bool
is_verified (some verified) = true
is_verified _ = false

abbrev pub is_retracted : Option MemoryStatus → Bool
is_retracted (some retracted) = true
is_retracted _ = false

-- `docs` are the records of the index.
pub record AgentMemory (Log : Type 0) : Type 0 where
  pub records : Records
  pub docs : Records
  pub log : Log

module _ {Log : Type 0} (append : MemoryRecord → Act Log (Unit {0}))
    (read : Log → List MemoryRecord) where
  abbrev pub remember : MemoryRecord → AgentMemory Log → AgentMemory Log
  remember r s = record s { records = put r s.records; docs = put r s.docs }

  -- The constructor.
  abbrev pub restore : Log → AgentMemory Log
  restore l = record { records = put_all (read l) []; docs = put_all (read l) []; log = l }

  abbrev pub written :
      MemoryRecord → Outcome Log (Unit {0}) → AgentMemory Log → Outcome (AgentMemory Log) (Unit {0})
  written r (returns a l) s = returns tt (remember r (record s { log = l }))
  written r (throws e l) s = throws e (record s { log = l })

  unfoldable pub write :
      MemoryRecord → (approval : Option String) → Act (AgentMemory Log) (Unit {0})
  write r approval s =
      if is_profile r.layer && not (is_text approval)
      then throws "Profile approval required" s
      else if is_journal r.layer && (not (is_date r.id) || not (has_receipt r))
      then throws "Journal needs date and receipt" s
      else if is_facts r.layer && is_verified r.status && not (has_receipt r)
      then throws "Promotion needs receipt" s
      else written r (append r s.log) s

  abbrev pub promoted :
      (receipt : String) → MemoryRecord → Option Provenance → Act (AgentMemory Log) (Unit {0})
  promoted receipt r none = throws "Promotion needs provenance and receipt"
  promoted receipt r (some p) =
      if receipt == ""
      then throws "Promotion needs provenance and receipt"
      else write
          (record r {
            status = some verified;
            provenance = some (record p { receipt_id = some receipt });
          })
          none

  abbrev pub promoted_one :
      (receipt : String) → Option MemoryRecord → Act (AgentMemory Log) (Unit {0})
  promoted_one receipt none = throws "Promotion needs provenance and receipt"
  promoted_one receipt (some r) = promoted receipt r r.provenance

  unfoldable pub promote : (id receipt : String) → Act (AgentMemory Log) (Unit {0})
  promote id receipt s = promoted_one receipt (find (has_key facts id) s.records) s

pub record Scores : Type 1 where
  pub Score : Type 0
  pub higher : Score → Score → Bool
  pub is_positive : Score → Bool

abbrev pub entry_text : MemoryRecord → List ℕ
entry_text r =
    codes "[" ++ codes (layer_text r.layer) ++ codes ":" ++ codes r.id ++ codes "] " ++ r.text

abbrev pub separator : List ℕ → List ℕ
separator [] = []
separator (c ∷ cs) = codes "\n"

-- The texts that fit in the budget, and the records with the part of them that does.
unfoldable pub pack :
    (budget : ℕ) → (text : List ℕ) → List MemoryRecord → List ℕ × List MemoryRecord
pack budget text [] = (text, [])
pack budget text (r ∷ rs) =
    let addition = take (budget - length text) (separator text ++ entry_text r) in
    let (all_text, records) = pack budget (text ++ addition) rs in
    if budget - length text == 0
    then (text, [])
    else (all_text, record r { text = addition } ∷ records)

module _ (scores : Scores)
    (score : (query : List ℕ) → List MemoryRecord → MemoryRecord → scores.Score) where
  abbrev pub ranked : List ℕ → Records → List MemoryRecord
  ranked query docs =
      let kept = filter (λ r. not (is_retracted r.status)) docs in
      sort_by (λ a b. scores.higher (score query kept a) (score query kept b))
        (filter (λ r. scores.is_positive (score query kept r)) kept)

  -- `retrieve`
  unfoldable pub retrieve : (query : List ℕ) → (budget : ℕ) → Records → List ℕ × List MemoryRecord
  retrieve query budget docs = pack budget [] (ranked query docs)
