-- ===== src/Store/Sessions/History.antt =====
-- store/repository.go: the table of sessions is a family of independent sessions.
use harness_platform_monorep.Prelude.{
  ℕ, ◌≡◌, refl, sym, ap, ◌∙◌, ◌≢◌, ◌⊎◌, inl, inr, false, none, some, List, [], ◌∷◌, arith, ◌==◌,
  if◌then◌else◌, ==_iff, Bool-cases, Option-cases,
}
use harness_platform_monorep.Domain.Problem.{ErrorCode, Outcome}
use harness_platform_monorep.Domain.Session
use harness_platform_monorep.Domain.Session.{Session, SessionStatus, Op}
use harness_platform_monorep.Domain.Session.Lifecycle as Life
use harness_platform_monorep.Domain.Session.Lifecycle.{step_error_unchanged}
use harness_platform_monorep.Store.Table.{
  ok, err, transaction, find, find-holds, update_where, affected,
}
use harness_platform_monorep.Store.Table.Keys.{
  IsKeyed, update_where-IsKeyed, affected-one, find-update_one, find-update_other,
}
use harness_platform_monorep.Store.Sessions.{
  update_session, update_session_row, is_session_row, with_session,
}

abbrev pub key : Session → ℕ
key s = s.id

-- What a method may change of a session is what the update writes.
step-with_session :
    (op : Op) (now : ℕ) (s : Session)
    → with_session (Session.step op now s).0 s ≡ (Session.step op now s).0
unfolding Session.step
step-with_session op now s = ground arith

row_fails :
    (mutate : Session → Outcome Session) (s : Session) (rows : List Session) {e : ErrorCode}
    → (mutate s).1 ≡ some e
    → update_session_row mutate s rows ≡ (rows, err e)
unfolding update_session_row
row_fails mutate s rows h = ground arith

row_updates :
    (mutate : Session → Outcome Session) (s : Session) (rows : List Session)
    → (mutate s).1 ≡ none
    → affected (is_session_row s) rows ≡ 1
    → update_session_row mutate s rows
      ≡ (update_where (is_session_row s) (with_session (mutate s).0) rows, ok (mutate s).0)
unfolding update_session_row
row_updates mutate s rows h one = ground arith

one_row :
    (s : Session) (rows : List Session) (id : ℕ)
    → s.id ≡ id
    → IsKeyed key rows
    → find (λ r. r.id == id) rows ≡ some s
    → affected (is_session_row s) rows ≡ 1
one_row s rows id same keyed found =
    affected-one key id (is_session_row s) rows (λ r h. ground arith) keyed found (ground arith)

-- An update with one of the session's methods, from its row on.
update_row_lem :
    (op : Op) (now : ℕ) (s : Session) (rows : List Session) (id : ℕ)
    → s.id ≡ id
    → IsKeyed key rows
    → find (λ r. r.id == id) rows ≡ some s
    → find (λ r. r.id == id) (transaction rows (update_session_row (Session.step op now) s rows)).0
      ≡ some (Session.step op now s).0
update_row_lem op now s rows id same keyed found = elim (Option-cases (Session.step op now s).1) [
  | inr (e, x) ↦
      rw (row_fails (Session.step op now) s rows x, step_error_unchanged op now s x) found
  | inl x ↦ rw (row_updates (Session.step op now) s rows x (one_row s rows id same keyed found)) (
      find-update_one key id (is_session_row s) (with_session (Session.step op now s).0) rows
        (λ r. refl) found (ground arith)
      ∙ ap some (step-with_session op now s))
]

row_result :
    (mutate : Session → Outcome Session) (s : Session) (rows : List Session)
    → ((transaction rows (update_session_row mutate s rows)).0 ≡ rows)
      ⊎ ((transaction rows (update_session_row mutate s rows)).0
          ≡ update_where (is_session_row s) (with_session (mutate s).0) rows)
unfolding update_session_row
row_result mutate s rows = elim (Option-cases (mutate s).1) [
  | inr (e, x) ↦ inl (ground arith)
  | inl x ↦ ground arith
]

-- The other sessions.
update_row_other :
    (op : Op) (now : ℕ) (s : Session) (rows : List Session) (id : ℕ)
    → s.id ≢ id
    → find (λ r. r.id == id) (transaction rows (update_session_row (Session.step op now) s rows)).0
      ≡ find (λ r. r.id == id) rows
update_row_other op now s rows id other = elim (row_result (Session.step op now) s rows) [
  | inl e ↦ rw e refl
  | inr e ↦ rw e (
      find-update_other key id (is_session_row s) (with_session (Session.step op now s).0) rows
        (λ r. refl) (λ r h k. other (ground arith)))
]

update_session_one :
    (op : Op) (now : ℕ) (s : Session) (rows : List Session) (id : ℕ)
    → IsKeyed key rows
    → id ≢ 0
    → find (λ r. r.id == id) rows ≡ some s
    → find (λ r. r.id == id) (update_session id (Session.step op now) rows).0
      ≡ some (Session.step op now s).0
unfolding update_session
update_session_one op now s rows id keyed given found =
    let same : s.id ≡ id = (==_iff s.id id).0 (find-holds (λ r. r.id == id) rows found) in
    let zero_no : (id == 0) ≡ false = ground arith in
    rw (zero_no, found) (update_row_lem op now s rows id same keyed found)

find_updated :
    (op : Op) (now : ℕ) (s : Session) (rows : List Session) (id other : ℕ)
    → other ≡ id
    → IsKeyed key rows
    → id ≢ 0
    → find (λ r. r.id == id) rows ≡ some s
    → find (λ r. r.id == id) (update_session other (Session.step op now) rows).0
      ≡ some (Session.step op now s).0
find_updated op now s rows id other same keyed given found =
    rw same (update_session_one op now s rows id keyed given found)

update_session_other :
    (op : Op) (now : ℕ) (rows : List Session) (id other : ℕ)
    → other ≢ id
    → find (λ r. r.id == id) (update_session other (Session.step op now) rows).0
      ≡ find (λ r. r.id == id) rows
unfolding update_session
update_session_other op now rows id other differ = elim (Bool-cases (other == 0)) [
  | inl z ↦ rw z refl
  | inr z ↦ elim (Option-cases (find (λ r. r.id == other) rows)) [
    | inl x ↦ rw (z, x) refl
    | inr (s, x) ↦
        let same : s.id ≡ other = (==_iff s.id other).0 (find-holds (λ r. r.id == other) rows x) in
        rw (z, x) (update_row_other op now s rows id (λ e. differ (sym same ∙ e)))
  ]
]

update_session-IsKeyed :
    (id : ℕ) (op : Op) (now : ℕ) (rows : List Session)
    → IsKeyed key rows
    → IsKeyed key (update_session id (Session.step op now) rows).0
unfolding update_session
update_session-IsKeyed id op now rows keyed = elim (Bool-cases (id == 0)) [
  | inl z ↦ rw z keyed
  | inr z ↦ elim (Option-cases (find (λ r. r.id == id) rows)) [
    | inl x ↦ rw (z, x) keyed
    | inr (s, x) ↦ elim (row_result (Session.step op now) s rows) [
      | inl e ↦ rw (z, x, e) keyed
      | inr e ↦
          rw (z, x, e)
            (update_where-IsKeyed key (is_session_row s) (with_session (Session.step op now s).0)
              rows (λ r. refl) keyed)
    ]
  ]
]

-- Updates by session, method and time, one after the other.
unfoldable pub serve : List (ℕ × Op × ℕ) → List Session → List Session
serve [] rows = rows
serve ((id, op, now) ∷ calls) rows = serve calls (update_session id (Session.step op now) rows).0

-- The calls for one session.
unfoldable pub calls_of : ℕ → List (ℕ × Op × ℕ) → List (Op × ℕ)
calls_of id [] = []
calls_of id ((other, op, now) ∷ calls) =
    if other == id then (op, now) ∷ calls_of id calls else calls_of id calls

-- The table of sessions is a family of independent state machines: in a table without a repeated
-- identifier, after any sequence of updates of any sessions, the row of a session with an identifier
-- that is not zero is what the sequence of its own calls makes of that session alone.
pub find-serve :
    (calls : List (ℕ × Op × ℕ)) (rows : List Session) (s : Session) (id : ℕ)
    → IsKeyed key rows
    → id ≢ 0
    → find (λ r. r.id == id) rows ≡ some s
    → find (λ r. r.id == id) (serve calls rows) ≡ some (Life.run (calls_of id calls) s)
unfolding serve calls_of Life.run
find-serve [] rows s id keyed given found = found
find-serve ((other, op, now) ∷ calls) rows s id keyed given found =
    let rows' = (update_session other (Session.step op now) rows).0 in
    let keyed' = update_session-IsKeyed other op now rows keyed in
    elim (Bool-cases (other == id)) [
      | inl e ↦
          let same : other ≡ id = (==_iff other id).0 e in
          rw e (
            find-serve calls rows' (Session.step op now s).0 id keyed' given
              (find_updated op now s rows id other same keyed given found))
      | inr e ↦
          let differ : other ≢ id = λ h. ground (arith, h, e) in
          rw e (
            find-serve calls rows' s id keyed' given
              (update_session_other op now rows id other differ ∙ found))
    ]
