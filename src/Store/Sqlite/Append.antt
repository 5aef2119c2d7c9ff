-- ===== src/Store/Sqlite/Append.antt =====
-- About the insertion of events into the tables.
use mathlib.Core.List.{append-nil, append_assoc}
use mathlib.Core.Path.{subst}
use counterpoint_living_deci.Application.Authorization.{access_eq}
use counterpoint_living_deci.Base.{
  ==_iff, ==_refl, >>=-eq-ok, All, Bool, Bool-cases, List, Result, String, [], any, ap, arith,
  false, filter, inl, inr, leb, length, length-append, nat_eq, not, ok, option_eq, range_error,
  refl, string_eq, suc, sym, throw_if, throw_if-eq-ok, true, ℕ, ◌&&◌, ◌++◌, ◌+◌, ◌==◌, ◌>>=◌, ◌>>◌,
  ◌∙◌, ◌∷◌, ◌≡◌, ◌≢◌, ◌≤◌,
}
use counterpoint_living_deci.Base.Keys.{All-map, filter_none}
use counterpoint_living_deci.Entities.Common.{confirmation_eq, origin_eq, visibility_eq}
use counterpoint_living_deci.Entities.Decisions.{action_status_eq, status_eq, task_state_eq}
use counterpoint_living_deci.Entities.People.{capability_eq}
use counterpoint_living_deci.Store.{EventRecord, number}
use counterpoint_living_deci.Store.Sqlite.{insert_events}
use counterpoint_living_deci.Store.Sqlite.Rows.{
  Numbered, Numbered-append, Numbered-bounded, filter-append, filter-All, max_position-Numbered,
}
use counterpoint_living_deci.Store.Sqlite.Tables.{
  Database, EventRow, insert_event, read_position, rows_of,
}
use counterpoint_living_deci.Values.{max_safe_integer}

-- The rows that an append inserts after `n`.
abbrev pub new_rows : String → ℕ → List String → List EventRow
new_rows meeting_id n [] = []
new_rows meeting_id n (t ∷ ts) =
    record { meeting_id = meeting_id; payload_json = t; position = n + 1 }
    ∷ new_rows meeting_id (n + 1) ts

abbrev pub with_events : Database → List EventRow → Database
with_events database rows = record database { events = database.events ++ rows }

-- The rows of every meeting are numbered.
abbrev pub IsNumbered : Database → Type 0
IsNumbered database = (m : String) → Numbered 0 (rows_of database m)

pub read_position_lem :
    (database : Database) (m : String)
    → Numbered 0 (rows_of database m)
    → read_position database m ≡ length (rows_of database m)
unfolding read_position
read_position_lem database m h = max_position-Numbered 0 (rows_of database m) h ∙ omega arith

pub new_rows-Numbered : (m : String) (n : ℕ) (ts : List String) → Numbered n (new_rows m n ts)
new_rows-Numbered m n [] = tt
new_rows-Numbered m n (t ∷ ts) = (refl, new_rows-Numbered m (n + 1) ts)

pub new_rows-in_meeting :
    (m : String) (n : ℕ) (ts : List String)
    → All (λ row. (row.meeting_id == m) ≡ true) (new_rows m n ts)
new_rows-in_meeting m n [] = tt
new_rows-in_meeting m n (t ∷ ts) = (==_refl m, new_rows-in_meeting m (n + 1) ts)

pub new_rows-other :
    (m other : String) (n : ℕ) (ts : List String)
    → m ≢ other
    → All (λ row. (row.meeting_id == other) ≡ false) (new_rows m n ts)
new_rows-other m other n [] h = tt
new_rows-other m other n (t ∷ ts) h =
    (ground (arith, ==_iff m other), new_rows-other m other (n + 1) ts h)

pub rows_of-with_events :
    (database : Database) (m : String) (n : ℕ) (ts : List String)
    → rows_of (with_events database (new_rows m n ts)) m ≡ rows_of database m ++ new_rows m n ts
unfolding rows_of
rows_of-with_events database m n ts =
    filter-append (λ row. row.meeting_id == m) database.events (new_rows m n ts)
    ∙ ap (λ rows. rows_of database m ++ rows)
        (filter-All (λ row. row.meeting_id == m) (new_rows m n ts) (new_rows-in_meeting m n ts))

pub rows_of-with_events_other :
    (database : Database) (m other : String) (n : ℕ) (ts : List String)
    → m ≢ other
    → rows_of (with_events database (new_rows m n ts)) other ≡ rows_of database other
unfolding rows_of
rows_of-with_events_other database m other n ts h =
    filter-append (λ row. row.meeting_id == other) database.events (new_rows m n ts)
    ∙ rw
        (filter_none (λ row. row.meeting_id == other) (new_rows m n ts)
          (new_rows-other m other n ts h))
        (append-nil (rows_of database other))

any-filter {ℓ} :
    {A : Type ℓ} (p q : A → Bool) (xs : List A) → any (λ x. p x && q x) xs ≡ any q (filter p xs)
unfolding any filter
any-filter p q [] = refl
any-filter p q (x ∷ xs) = elim (Bool-cases (p x)) [
  | inl e ↦ rw (e, any-filter p q xs) refl
  | inr e ↦ rw (e, any-filter p q xs) refl
]

pub any-none {ℓ} :
    {A : Type ℓ} (p : A → Bool) (xs : List A) → All (λ x. p x ≡ false) xs → any p xs ≡ false
unfolding any
any-none p [] h = refl
any-none p (x ∷ xs) h = rw (h.0, any-none p xs h.1) refl

-- The position after the last is free, so the primary key is not violated by a text that is JSON.
insert_event_total :
    (is_json : String → Bool) (database : Database) (m t : String) (n : ℕ)
    → Numbered 0 (rows_of database m)
    → length (rows_of database m) ≡ n
    → is_json t ≡ true
    → insert_event is_json database (record { meeting_id = m; payload_json = t; position = n + 1 })
      ≡ ok (with_events database (new_rows m n (t ∷ [])))
unfolding insert_event rows_of
insert_event_total is_json database m t n h e valid_text =
    let p : EventRow → Bool = λ row. row.meeting_id == m in
    let q : EventRow → Bool = λ row. row.position == n + 1 in
    let free : any q (filter p database.events) ≡ false = any-none q (filter p database.events) (
      All-map (filter p database.events) (λ row b. ground arith)
        (Numbered-bounded 0 (filter p database.events) h)) in
    rw valid_text (rw (any-filter p q database.events ∙ free) refl)

with_events-append :
    (database : Database) (xs ys : List EventRow)
    → with_events (with_events database xs) ys ≡ with_events database (xs ++ ys)
with_events-append database xs ys =
    ap (λ rows. record database { events = rows }) (append_assoc database.events xs ys)

with_events-nil : (database : Database) → with_events database [] ≡ database
with_events-nil database =
    ap (λ rows. record database { events = rows }) (append-nil database.events)

rows_of-next :
    (m : String) (database : Database) (n : ℕ) (t : String)
    → Numbered 0 (rows_of database m)
    → length (rows_of database m) ≡ n
    → Numbered 0 (rows_of (with_events database (new_rows m n (t ∷ []))) m)
      × (length (rows_of (with_events database (new_rows m n (t ∷ []))) m) ≡ n + 1)
rows_of-next m database n t h e =
    let l = length-append (rows_of database m) (new_rows m n (t ∷ [])) in
    rw (rows_of-with_events database m n (t ∷ [])) (
      Numbered-append 0 (rows_of database m) (new_rows m n (t ∷ [])) h (
          subst (λ k. Numbered k (new_rows m n (t ∷ []))) (omega arith)
            (new_rows-Numbered m n (t ∷ []))),
      omega arith,
    )

module _ {E : Type 0} where
  abbrev inserted : String → Database → ℕ → List E → List String → Database × List (EventRecord E)
  inserted m database n events ts = (with_events database (new_rows m n ts), number n events)

  inserted-cons :
      (m : String) (database : Database) (n : ℕ) (x : E) (events : List E) (t : String)
      (ts : List String)
      → let rest = inserted m (with_events database (new_rows m n (t ∷ []))) (n + 1) events ts in
        (rest.0, record { event = x; position = n + 1 } ∷ rest.1)
        ≡ inserted m database n (x ∷ events) (t ∷ ts)
  inserted-cons m database n x events t ts =
      ap (λ d. (d, number n (x ∷ events)))
        (with_events-append database (new_rows m n (t ∷ [])) (new_rows m (n + 1) ts))

module _ {E : Type 0} (is_json : String → Bool) where
  -- The first event takes the next position, and the others follow it.
  insert_events-cons :
      (m : String) (database : Database) (n : ℕ) (x : E) (events : List E) (t : String)
      (ts : List String)
      → Numbered 0 (rows_of database m)
      → length (rows_of database m) ≡ n
      → is_json t ≡ true
      → insert_events is_json m database n (x ∷ events) (t ∷ ts) ≡ (
          throw_if (not (leb (n + 1) max_safe_integer)) range_error
          >> (insert_events is_json m
                (with_events database (new_rows m n (t ∷ [])))
                (n + 1)
                events
                ts
              >>= λ rest. ok (rest.0, record { event = x; position = n + 1 } ∷ rest.1)))
  unfolding insert_events
  insert_events-cons m database n x events t ts h e valid_text =
      rw (insert_event_total is_json database m t n h e valid_text) refl

  -- What was inserted was JSON.
  inserted_is_json :
      (m : String) (database : Database) (n : ℕ) (x : E) (events : List E) (t : String)
      (ts : List String) {out : Database × List (EventRecord E)}
      → insert_events is_json m database n (x ∷ events) (t ∷ ts) ≡ ok out
      → is_json t ≡ true
  unfolding insert_events insert_event
  inserted_is_json m database n x events t ts r = elim (Bool-cases (is_json t)) [
    | inl e ↦ e
    | inr e ↦ absurd (ground (arith, e, r))
  ]

  -- What the loop returns, if it returns: the rows behind the others, one for each event.
  pub insert_events-eq-ok :
      (m : String) (database : Database) (n : ℕ) (events : List E) (ts : List String)
      {out : Database × List (EventRecord E)}
      → Numbered 0 (rows_of database m)
      → length (rows_of database m) ≡ n
      → length ts ≡ length events
      → insert_events is_json m database n events ts ≡ ok out
      → inserted m database n events ts ≡ out
  insert_events-eq-ok m database n [] [] h e l r =
      unfold insert_events in (cc (with_events-nil database, r))
  insert_events-eq-ok m database n [] (t ∷ ts) h e l r = absurd (omega arith)
  insert_events-eq-ok m database n (x ∷ events) [] h e l r = absurd (omega arith)
  insert_events-eq-ok m database n (x ∷ events) (t ∷ ts) {out} h e l r =
      let next = with_events database (new_rows m n (t ∷ [])) in
      let valid_text : is_json t ≡ true = inserted_is_json m database n x events t ts r in
      let l' : length ts ≡ length events = omega arith in
      let (h', e') = rows_of-next m database n t h e in
      let first : EventRecord E = record { event = x; position = n + 1 } in
      let join : Database × List (EventRecord E) → Result (Database × List (EventRecord E)) =
        λ q. ok (q.0, first ∷ q.1) in
      let (_, r') =
        throw_if-eq-ok (not (leb (n + 1) max_safe_integer)) range_error
          (insert_events is_json m next (n + 1) events ts >>= join)
          (sym (insert_events-cons m database n x events t ts h e valid_text) ∙ r) in
      let (rest, r'', same) = >>=-eq-ok (insert_events is_json m next (n + 1) events ts) join r' in
      let ih = insert_events-eq-ok m next (n + 1) events ts h' e' l' r'' in
      let joined : (rest.0, first ∷ rest.1) ≡ out = cc same in
      sym (inserted-cons m database n x events t ts) ∙ ap (λ q. (q.0, first ∷ q.1)) ih ∙ joined

  -- It returns while the positions stay safe integers, if all texts are JSON.
  pub insert_events_total :
      (m : String) (database : Database) (n : ℕ) (events : List E) (ts : List String)
      → Numbered 0 (rows_of database m)
      → length (rows_of database m) ≡ n
      → length ts ≡ length events
      → n + length events ≤ max_safe_integer
      → All (λ t. is_json t ≡ true) ts
      → insert_events is_json m database n events ts ≡ ok (inserted m database n events ts)
  insert_events_total m database n [] [] h e l b texts =
      unfold insert_events in (ap (λ d. ok (d, [])) (sym (with_events-nil database)))
  insert_events_total m database n [] (t ∷ ts) h e l b texts = absurd (omega arith)
  insert_events_total m database n (x ∷ events) [] h e l b texts = absurd (omega arith)
  insert_events_total m database n (x ∷ events) (t ∷ ts) h e l b texts =
      let next = with_events database (new_rows m n (t ∷ [])) in
      let (h', e') = rows_of-next m database n t h e in
      let safe : leb (n + 1) max_safe_integer ≡ true = ground arith in
      insert_events-cons m database n x events t ts h e texts.0
      ∙ rw
          (
            safe,
            insert_events_total m next (n + 1) events ts h' e' (omega arith) (omega arith) texts.1,
          )
          (ap ok (inserted-cons m database n x events t ts))

pub length-number :
    {E : Type 0} (n : ℕ) (events : List E) → length (number n events) ≡ length events
length-number n [] = refl
length-number n (x ∷ events) = ap suc (length-number (n + 1) events)
