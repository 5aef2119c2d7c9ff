-- ===== src/Store/Accounts/Meetings/Laws.antt =====
-- About the repository of meetings over the tables, as the services of meetings.ts use it.
use mathlib.Core.List.{append-nil, append_assoc}
use mathlib.Core.Path.{subst}
use counterpoint_living_deci.Application.Authorization.{access_eq}
use counterpoint_living_deci.Application.Meetings.{AssignmentRecord, MeetingRecord}
use counterpoint_living_deci.Application.Meetings.Laws.{IsMeetingRepository, is_assigned}
use counterpoint_living_deci.Base.{
  ==_iff, >>-eq-ok_iff, >>=-eq-ok, All, Bool, Bool-cases, List, String, [], any, ap, arith, false,
  find, inl, inr, nat_eq, none, ok, option_eq, refl, some, string_eq, sym, true, ◌++◌, ◌==◌, ◌>>=◌,
  ◌∙◌, ◌∷◌, ◌≡◌, ◌≢◌,
}
use counterpoint_living_deci.Base.Keys.{All-map, All-snoc, find-append, none_of_All}
use counterpoint_living_deci.Entities.Common.{confirmation_eq, origin_eq, visibility_eq}
use counterpoint_living_deci.Entities.Decisions.{action_status_eq, status_eq, task_state_eq}
use counterpoint_living_deci.Entities.People.{capability_eq}
use counterpoint_living_deci.Store.Accounts.{Accounts}
use counterpoint_living_deci.Store.Accounts.Meetings.{
  create_sqlite_meeting, find_assignment_row, find_meeting, find_meeting_by_code, insert_assignment,
  insert_assignments, insert_meeting, sqlite_meetings, validate_meeting_creation,
}
use counterpoint_living_deci.Store.Accounts.Sessions.{find-last}
use counterpoint_living_deci.Store.Projections.{key_eq, kind_eq}
use counterpoint_living_deci.Store.Sqlite.Tables.{require_non_empty}

-- The meeting of every assignment is there, as the foreign key demands.
abbrev pub HasMeetings : Accounts → Type 0
HasMeetings accounts =
    All (λ a. any (λ m. m.meeting_id == a.meeting_id) accounts.meetings ≡ true)
      accounts.participant_assignments

any_before {ℓ} :
    {A : Type ℓ} (p : A → Bool) (xs ys : List A) → any p xs ≡ true → any p (xs ++ ys) ≡ true
unfolding any
any_before p [] ys h = cc h
any_before p (x ∷ xs) ys h = elim (Bool-cases (p x)) [
  | inl e ↦ rw e refl
  | inr e ↦ rw e (any_before p xs ys (ground (arith, h, e)))
]

validate-given :
    (m : MeetingRecord) (people : List AssignmentRecord)
    → validate_meeting_creation m people ≡ ok tt
    → ((m.meeting_id == "") ≡ false) × ((m.code == "") ≡ false)
unfolding validate_meeting_creation require_non_empty
validate-given m people h = ground arith

record IsInserted (accounts : Accounts) (m : MeetingRecord) (next : Accounts) : Type 0 where
  id_free : any (λ n. n.meeting_id == m.meeting_id) accounts.meetings ≡ false
  code_free : any (λ n. n.code == m.code) accounts.meetings ≡ false
  done : record accounts { meetings = accounts.meetings ++ m ∷ [] } ≡ next

insert_meeting-IsInserted :
    (accounts next : Accounts) (m : MeetingRecord)
    → insert_meeting accounts m ≡ ok next
    → IsInserted accounts m next
unfolding insert_meeting
insert_meeting-IsInserted accounts next m h = ground arith

insert_assignment-eq-ok :
    (accounts next : Accounts) (a : AssignmentRecord)
    → insert_assignment accounts a ≡ ok next
    → (any (λ m. m.meeting_id == a.meeting_id) accounts.meetings ≡ true)
      × (record accounts { participant_assignments = accounts.participant_assignments ++ a ∷ [] }
          ≡ next)
unfolding insert_assignment
insert_assignment-eq-ok accounts next a h = ground arith

insert_assignments-eq-ok :
    (accounts next : Accounts) (people : List AssignmentRecord)
    → insert_assignments accounts people ≡ ok next
    → record accounts { participant_assignments = accounts.participant_assignments ++ people }
      ≡ next
unfolding insert_assignments
insert_assignments-eq-ok accounts next [] h =
    ap (λ rows. record accounts { participant_assignments = rows })
      (append-nil accounts.participant_assignments)
    ∙ cc h
insert_assignments-eq-ok accounts next (a ∷ people) h =
    let (middle, first, rest) =
      >>=-eq-ok (insert_assignment accounts a) (λ s. insert_assignments s people) h in
    let (_, done) = insert_assignment-eq-ok accounts middle a first in
    ap (λ rows. record accounts { participant_assignments = rows })
      (sym (append_assoc accounts.participant_assignments (a ∷ []) people))
    ∙ ap
        (λ (s : Accounts). record s {
          participant_assignments = s.participant_assignments ++ people;
        })
        done
    ∙ insert_assignments-eq-ok middle next people rest

insert_assignments-HasMeetings :
    (accounts next : Accounts) (people : List AssignmentRecord)
    → HasMeetings accounts
    → insert_assignments accounts people ≡ ok next
    → HasMeetings next
unfolding insert_assignments
insert_assignments-HasMeetings accounts next [] good h =
    let same : accounts ≡ next = cc h in subst HasMeetings same good
insert_assignments-HasMeetings accounts next (a ∷ people) good h =
    let (middle, first, rest) =
      >>=-eq-ok (insert_assignment accounts a) (λ s. insert_assignments s people) h in
    let (there, done) = insert_assignment-eq-ok accounts middle a first in
    insert_assignments-HasMeetings middle next people
      (subst HasMeetings done (
        All-snoc
          (λ (b : AssignmentRecord).
            any (λ m. m.meeting_id == b.meeting_id) accounts.meetings ≡ true)
          accounts.participant_assignments a good there))
      rest

-- What a creation that succeeds did.
record IsCreated (accounts : Accounts) (m : MeetingRecord) (people : List AssignmentRecord)
    (next : Accounts) : Type 0 where
  id_given : (m.meeting_id == "") ≡ false
  code_given : (m.code == "") ≡ false
  middle : Accounts
  inserted : IsInserted accounts m middle
  assigned : insert_assignments middle people ≡ ok next

create-IsCreated :
    (accounts next : Accounts) (m : MeetingRecord) (people : List AssignmentRecord)
    → create_sqlite_meeting accounts m people ≡ ok next
    → IsCreated accounts m people next
unfolding create_sqlite_meeting
create-IsCreated accounts next m people h =
    let (valid_input, h') =
      (>>-eq-ok_iff (validate_meeting_creation m people)
          (insert_meeting accounts m >>= λ s. insert_assignments s people)).0
        h in
    let (middle, first, rest) =
      >>=-eq-ok (insert_meeting accounts m) (λ s. insert_assignments s people) h' in
    let (id_given, code_given) = validate-given m people valid_input in
    record {
      id_given = id_given;
      code_given = code_given;
      middle = middle;
      inserted = insert_meeting-IsInserted accounts middle m first;
      assigned = rest;
    }

stays_good :
    (accounts next : Accounts) (m : MeetingRecord) (people : List AssignmentRecord)
    → HasMeetings accounts
    → create_sqlite_meeting accounts m people ≡ ok next
    → HasMeetings next
stays_good accounts next m people good h =
    let c = create-IsCreated accounts next m people h in
    let grown : HasMeetings (record accounts { meetings = accounts.meetings ++ m ∷ [] }) =
      All-map accounts.participant_assignments
        (λ a there. any_before (λ n. n.meeting_id == a.meeting_id) accounts.meetings (m ∷ []) there)
        good in
    insert_assignments-HasMeetings c.middle next people (subst HasMeetings c.inserted.done grown)
      c.assigned

-- The tables after a creation.
created_tables :
    (accounts next : Accounts) (m : MeetingRecord) (people : List AssignmentRecord)
    → create_sqlite_meeting accounts m people ≡ ok next
    → record accounts {
      meetings = accounts.meetings ++ m ∷ [];
      participant_assignments = accounts.participant_assignments ++ people;
    }
      ≡ next
created_tables accounts next m people h =
    let c = create-IsCreated accounts next m people h in
    ap
      (λ (s : Accounts). record s { participant_assignments = s.participant_assignments ++ people })
      c.inserted.done
    ∙ insert_assignments-eq-ok c.middle next people c.assigned

found_by_code :
    (accounts next : Accounts) (m : MeetingRecord) (people : List AssignmentRecord)
    → create_sqlite_meeting accounts m people ≡ ok next
    → find_meeting_by_code next m.code ≡ ok (some m)
unfolding find_meeting_by_code require_non_empty
found_by_code accounts next m people h =
    let c = create-IsCreated accounts next m people h in
    let own = (==_iff m.code m.code).1 refl in
    rw (← created_tables accounts next m people h) (
      rw c.code_given
        (ap ok (find-last (λ n. n.code == m.code) accounts.meetings m c.inserted.code_free own)))

found_by_id :
    (accounts next : Accounts) (m : MeetingRecord) (people : List AssignmentRecord)
    → create_sqlite_meeting accounts m people ≡ ok next
    → find_meeting next m.meeting_id ≡ ok (some m)
unfolding find_meeting require_non_empty
found_by_id accounts next m people h =
    let c = create-IsCreated accounts next m people h in
    let own = (==_iff m.meeting_id m.meeting_id).1 refl in
    rw (← created_tables accounts next m people h) (
      rw c.id_given (
        ap ok (
          find-last (λ n. n.meeting_id == m.meeting_id) accounts.meetings m c.inserted.id_free
            own)))

-- A new meeting has no assignments yet.
is_unassigned :
    (accounts : Accounts) (id user : String) (a : AssignmentRecord)
    → any (λ n. n.meeting_id == id) accounts.meetings ≡ false
    → any (λ n. n.meeting_id == a.meeting_id) accounts.meetings ≡ true
    → is_assigned id user a ≡ false
is_unassigned accounts id user a free there = elim (Bool-cases (a.meeting_id == id)) [
  | inl e ↦
      let same : a.meeting_id ≡ id = (==_iff a.meeting_id id).0 e in
      absurd (
        cc (
          free,
          there,
          ap (λ i. any (λ (n : MeetingRecord). n.meeting_id == i) accounts.meetings) same,
        ))
  | inr e ↦ rw e refl
]

found_assignment :
    (accounts next : Accounts) (m : MeetingRecord) (people : List AssignmentRecord) (user : String)
    → HasMeetings accounts
    → create_sqlite_meeting accounts m people ≡ ok next
    → user ≢ ""
    → find_assignment_row next m.meeting_id user ≡ ok (find (is_assigned m.meeting_id user) people)
unfolding find_assignment_row require_non_empty
found_assignment accounts next m people user good h given =
    let c = create-IsCreated accounts next m people h in
    let old = accounts.participant_assignments in
    let p : AssignmentRecord → Bool = is_assigned m.meeting_id user in
    let filled : (user == "") ≡ false = ground (arith, ==_iff user "") in
    let free : find p old ≡ none = none_of_All p old (
      All-map old (λ a there. is_unassigned accounts m.meeting_id user a c.inserted.id_free there)
        good) in
    let search : find p (old ++ people) ≡ find p people = find-append p old people ∙ rw free refl in
    rw (← created_tables accounts next m people h) (rw c.id_given (rw filled (ap ok search)))

pub sqlite_meetings-IsMeetingRepository :
    (sort_assignments : List AssignmentRecord → List AssignmentRecord)
    (sort_meetings : List MeetingRecord → List MeetingRecord)
    → IsMeetingRepository (sqlite_meetings sort_assignments sort_meetings) HasMeetings
sqlite_meetings-IsMeetingRepository sort_assignments sort_meetings = record {
  stays_good = stays_good;
  by_code = found_by_code;
  by_id = found_by_id;
  by_assignment = found_assignment;
}
