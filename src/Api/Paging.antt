-- ===== src/Api/Paging.antt =====
-- The pages of the audit log.
use securevault.Effect.Keeps.{
  Keeps-modify, Keeps-raise_if, Keeps-call, Keeps-gets, Keeps-bind, Keeps-ignore, Keeps,
}
use securevault.Audit.{newest_id, to_row, Event, record_event}
use securevault.Api.AdminHandlers.{last_id, audit_page, older, cut_page}
use securevault.Database.Schema.{AuditRow}
use mathlib.Core.Path.{subst}
use securevault.Platform.{Platform}
use securevault.Base.{
  ltb, ltb→lt, Bool-cases, ◌==◌, nat_eq, string_eq, bytes_eq, length, take, drop, keep, All, ℕ,
  zero, suc, ◌≤◌, ◌<◌, ◌≡◌, refl, sym, ap, ◌∙◌, inl, inr, Bool, true, false, some, List, [], ◌∷◌,
  ◌++◌, arith,
}

-- The newest event first: each id is positive, and below the one before it and below `top`.
abbrev pub IsDescending : ℕ → List AuditRow → Type 0
IsDescending top [] = Unit
IsDescending top (e ∷ es) = ((0 < e.id) × (e.id < top)) × IsDescending e.id es

abbrev below : ℕ → AuditRow → Bool
below id e = ltb e.id id

-- The ids of a list are positive, and below `top`.
abbrev AreWithin : ℕ → List AuditRow → Type 0
AreWithin top = All (λ e. (0 < e.id) × (e.id < top))

weaken :
    (low top : ℕ) (log : List AuditRow) → low ≤ top → IsDescending low log → IsDescending top log
weaken low top [] le h = tt
weaken low top (e ∷ es) le ((positive, less), h) = ((positive, omega arith), h)

keep-IsDescending :
    (id top : ℕ) (log : List AuditRow)
    → IsDescending top log
    → IsDescending top (keep (below id) log)
keep-IsDescending id top [] h = tt
keep-IsDescending id top (e ∷ es) ((positive, less), h) = elim (Bool-cases (ltb e.id id)) [
  | inl kept ↦ rw (kept) ((positive, less), keep-IsDescending id e.id es h)
  | inr dropped ↦ rw (dropped) (keep-IsDescending id top es (weaken e.id top es (omega arith) h))
]

IsDescending-AreWithin : (top : ℕ) (log : List AuditRow) → IsDescending top log → AreWithin top log
IsDescending-AreWithin top [] h = tt
IsDescending-AreWithin top (e ∷ es) ((positive, less), h) =
    ((positive, less), IsDescending-AreWithin top es (weaken e.id top es (omega arith) h))

keep-AreWithin :
    (id top : ℕ) (log : List AuditRow) → AreWithin top log → AreWithin id (keep (below id) log)
keep-AreWithin id top [] h = tt
keep-AreWithin id top (e ∷ es) ((positive, less), h) = elim (Bool-cases (ltb e.id id)) [
  | inl kept ↦ rw (kept) ((positive, ltb→lt e.id id kept), keep-AreWithin id top es h)
  | inr dropped ↦ rw (dropped) (keep-AreWithin id top es h)
]

last_id-AreWithin :
    (top n : ℕ) (log : List AuditRow) {id : ℕ}
    → AreWithin top log
    → last_id (take n log) ≡ some id
    → (0 < id) × (id < top)
last_id-AreWithin top zero log h e = absurd (cc e)
last_id-AreWithin top (suc n) [] h e = absurd (cc e)
last_id-AreWithin top (suc zero) (a ∷ es) ((positive, less), h) e =
    (ground (arith, positive, e), ground (arith, less, e))
last_id-AreWithin top (suc (suc n)) (a ∷ []) ((positive, less), h) e =
    (ground (arith, positive, e), ground (arith, less, e))
last_id-AreWithin top (suc (suc n)) (a ∷ b ∷ es) (first, h) e =
    last_id-AreWithin top (suc n) (b ∷ es) h e

keep-all : (top : ℕ) (log : List AuditRow) → AreWithin top log → keep (below top) log ≡ log
keep-all top [] h = refl
keep-all top (e ∷ es) ((positive, less), h) =
    let kept : ltb e.id top ≡ true = ground (arith, less) in
    rw (kept) (ap (λ xs. e ∷ xs) (keep-all top es h))

-- Below the last id of a page stands what the page left.
older-take :
    (top n : ℕ) (log : List AuditRow) {id : ℕ}
    → IsDescending top log
    → last_id (take n log) ≡ some id
    → keep (below id) log ≡ drop n log
older-take top zero log h e = absurd (cc e)
older-take top (suc n) [] h e = absurd (cc e)
older-take top (suc zero) (a ∷ es) {id} (first, h) e =
    let same : a.id ≡ id = cc e in
    let dropped : ltb a.id id ≡ false = ground (arith, same) in
    rw (dropped) (
      subst (λ i. keep (below i) es ≡ es) same
        (keep-all a.id es (IsDescending-AreWithin a.id es h)))
older-take top (suc (suc n)) (a ∷ []) {id} (first, h) e =
    let same : a.id ≡ id = cc e in
    let dropped : ltb a.id id ≡ false = ground (arith, same) in rw (dropped) refl
older-take top (suc (suc n)) (a ∷ b ∷ es) {id} (first, h) e =
    let (_, less) =
      last_id-AreWithin a.id (suc n) (b ∷ es) (IsDescending-AreWithin a.id (b ∷ es) h) e in
    let dropped : ltb a.id id ≡ false = ground (arith, less) in
    rw (dropped) (older-take a.id (suc n) (b ∷ es) h e)

keep-below :
    (low high : ℕ) (log : List AuditRow)
    → low ≤ high
    → keep (below low) (keep (below high) log) ≡ keep (below low) log
keep-below low high [] le = refl
keep-below low high (e ∷ es) le = ground (arith, le, keep-below low high es le)

take-drop {ℓ} : {A : Type ℓ} (n : ℕ) (xs : List A) → take n xs ++ drop n xs ≡ xs
take-drop zero xs = refl
take-drop (suc n) [] = refl
take-drop (suc n) (x ∷ xs) = ap (λ ys. x ∷ ys) (take-drop n xs)

take-take {ℓ} : {A : Type ℓ} (n : ℕ) (xs : List A) → take n (take (suc n) xs) ≡ take n xs
take-take zero xs = refl
take-take (suc n) [] = refl
take-take (suc n) (x ∷ xs) = ap (λ ys. x ∷ ys) (take-take n xs)

-- The rows that a page is cut from, and those that follow its last one.
older-older :
    (limit before top : ℕ) (log : List AuditRow) {next : ℕ}
    → IsDescending top log
    → last_id (take limit (older before log)) ≡ some next
    → older next log ≡ drop limit (older before log)
unfolding older
older-older limit before top log {next} h e = elim (Bool-cases (before == 0)) [
  | inl newest ↦
      let e' = rw (newest) at e in
      let (positive, _) = last_id-AreWithin top limit log (IsDescending-AreWithin top log h) e' in
      let more : (next == 0) ≡ false = ground (arith, positive) in
      rw (newest, more) (older-take top limit log h e')
  | inr given ↦
      let e' = rw (given) at e in
      let rows = keep (below before) log in
      let within = keep-AreWithin before top log (IsDescending-AreWithin top log h) in
      let (positive, less) = last_id-AreWithin before limit rows within e' in
      let more : (next == 0) ≡ false = ground (arith, positive) in
      rw (given, more)
        (sym (keep-below next before log (omega arith))
          ∙ older-take top limit rows (keep-IsDescending before top log h) e')
]

cut_page-next :
    (limit : ℕ) (rows : List AuditRow) {next : ℕ}
    → (cut_page limit (take (suc limit) rows)).next_before ≡ some next
    → ((cut_page limit (take (suc limit) rows)).events ≡ take limit rows)
      × (last_id (take limit rows) ≡ some next)
unfolding cut_page
cut_page-next limit rows h = elim (Bool-cases (ltb limit (length (take (suc limit) rows)))) [
  | inl more ↦ (rw (more) (take-take limit rows), rw (← take-take limit rows) (rw (more) at h))
  | inr last ↦ absurd (cc (rw (last) at h))
]

-- Where the ids of the audit log fall from the newest event on and are positive: if a page names
-- where the next one begins, the events that were asked for are those of the page, followed by
-- those that the next request asks for, so that none is skipped and none comes twice.
pub audit_page-continues :
    (limit before top : ℕ) (log : List AuditRow) (next : ℕ)
    → IsDescending top log
    → (audit_page limit before log).next_before ≡ some next
    → older before log ≡ (audit_page limit before log).events ++ older next log
unfolding audit_page
audit_page-continues limit before top log next h more =
    let (page, last) = cut_page-next limit (older before log) more in
    rw (page, older-older limit before top log h last) (sym (take-drop limit (older before log)))

-- Recording an event keeps the ids of the audit log positive and falling from the newest event on,
-- as the identity column numbers them.
pub record_event-IsDescending :
    (p : Platform) (e : Event)
    → Keeps (λ w. IsDescending (suc (newest_id w.audit_events)) w.audit_events) (record_event p e)
unfolding record_event to_row
record_event-IsDescending p e = Keeps-ignore _ (
    Keeps-bind _ _ (Keeps-gets _) λ at. Keeps-bind _ _ (Keeps-call p λ w h. h) λ _.
      Keeps-bind _ _ (Keeps-raise_if _ _) λ _.
        Keeps-modify _
          λ w h. ((omega arith, omega arith), weaken _ _ w.audit_events (omega arith) h))
