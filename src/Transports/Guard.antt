-- ===== src/Transports/Guard.antt =====
-- internal/transport/conn.go: the deadlines of a connection. Times are nanoseconds since some moment.
use uploadfun.Base.{
  ℕ, ◌+◌, ◌≡◌, refl, ℤ, pos, pos_part, ltb_ℤ, Bool, Bool-cases, inl, inr, true, false, ◌&&◌, List,
  [], ◌∷◌, All, Option, none, some, arith, if◌then◌else◌,
}

pub record StallGuard : Type 0 where
  pub stall_timeout : ℤ
  pub established : Bool

unfoldable pub mark_established : StallGuard → StallGuard
mark_established guard = record guard { established = true }

-- What a `net.Conn` keeps of `SetReadDeadline`, `SetWriteDeadline` and `SetDeadline`; `none` is the
-- zero time.
pub record Deadlines : Type 0 where
  pub read : Option ℕ
  pub write : Option ℕ

-- `armConnectDeadline` and `clearDeadline`
unfoldable pub arm_connect_deadline : ℤ → (now : ℕ) → Deadlines → Deadlines
arm_connect_deadline timeout now d =
    let until = some (now + pos_part timeout) in
    if ltb_ℤ (pos 0) timeout then record { read = until; write = until } else d

unfoldable pub clear_deadline : Deadlines → Deadlines
clear_deadline d = record { read = none; write = none }

-- `guardedConn.arm`, for the deadline that it would set.
unfoldable pub arm : StallGuard → (now : ℕ) → Option ℕ → Option ℕ
arm guard now deadline =
    if guard.established && ltb_ℤ (pos 0) guard.stall_timeout
    then some (now + pos_part guard.stall_timeout)
    else deadline

-- A `Read` or a `Write` on a `guardedConn`, at a time.
pub data Transfer : Type 0 where
  read_at write_at : (now : ℕ) → Transfer

abbrev pub time_of : Transfer → ℕ
time_of (read_at now) = now
time_of (write_at now) = now

-- The deadlines that a transfer leaves, and the one under which it runs.
unfoldable pub guarded : StallGuard → Transfer → Deadlines → Deadlines × Option ℕ
guarded guard (read_at now) d =
    let until = arm guard now d.read in (record d { read = until }, until)
guarded guard (write_at now) d =
    let until = arm guard now d.write in (record d { write = until }, until)

-- The transfers of a session, each with the deadline under which it runs.
unfoldable pub guarded_all : StallGuard → List Transfer → Deadlines → List (Transfer × Option ℕ)
guarded_all guard [] d = []
guarded_all guard (t ∷ ts) d =
    let (d1, until) = guarded guard t d in (t, until) ∷ guarded_all guard ts d1

-- Every transfer runs under a deadline that lies this far ahead.
abbrev pub IsTimed : ℕ → List (Transfer × Option ℕ) → Type 0
IsTimed stall runs =
    All (λ ((t, until) : Transfer × Option ℕ). until ≡ some (time_of t + stall)) runs

-- Every transfer runs under this deadline.
abbrev pub IsBounded : Option ℕ → List (Transfer × Option ℕ) → Type 0
IsBounded limit runs = All (λ ((t, until) : Transfer × Option ℕ). until ≡ limit) runs

guarded_all-IsTimed :
    (guard : StallGuard) (ts : List Transfer) (d : Deadlines)
    → (guard.established && ltb_ℤ (pos 0) guard.stall_timeout) ≡ true
    → IsTimed (pos_part guard.stall_timeout) (guarded_all guard ts d)
unfolding guarded_all guarded arm
guarded_all-IsTimed guard [] d on = tt
guarded_all-IsTimed guard (t ∷ ts) d on =
    let d1 = (guarded guard t d).0 in ground (arith, guarded_all-IsTimed guard ts d1 on)

guarded_all-IsBounded :
    (guard : StallGuard) (ts : List Transfer) (limit : Option ℕ)
    → (guard.established && ltb_ℤ (pos 0) guard.stall_timeout) ≡ false
    → IsBounded limit (guarded_all guard ts (record { read = limit; write = limit }))
unfolding guarded_all guarded arm
guarded_all-IsBounded guard [] limit off = tt
guarded_all-IsBounded guard (read_at now ∷ ts) limit off =
    ground (arith, guarded_all-IsBounded guard ts limit off)
guarded_all-IsBounded guard (write_at now ∷ ts) limit off =
    ground (arith, guarded_all-IsBounded guard ts limit off)

arm_connect_deadline-positive :
    (timeout : ℤ) (now : ℕ) (d : Deadlines)
    → ltb_ℤ (pos 0) timeout ≡ true
    → let until = some (now + pos_part timeout) in
      arm_connect_deadline timeout now d ≡ record { read = until; write = until }
unfolding arm_connect_deadline
arm_connect_deadline-positive timeout now d on = rw on refl

-- Until the session is up, each transfer runs under the one connect deadline, which no transfer puts
-- off; after that, with the deadline cleared, each runs under a deadline of its own, the stall
-- timeout ahead, or under none if there is no stall timeout.
pub guarded_all-deadlines :
    (connect_timeout stall_timeout : ℤ) (now : ℕ) (before after : List Transfer) (d : Deadlines)
    → ltb_ℤ (pos 0) connect_timeout ≡ true
    → let guard : StallGuard = record { stall_timeout = stall_timeout; established = false } in
      let armed = arm_connect_deadline connect_timeout now d in
      let later = guarded_all (mark_established guard) after (clear_deadline armed) in
      IsBounded (some (now + pos_part connect_timeout)) (guarded_all guard before armed)
      × (if ltb_ℤ (pos 0) stall_timeout
          then IsTimed (pos_part stall_timeout) later
          else IsBounded none later)
unfolding clear_deadline mark_established
guarded_all-deadlines connect_timeout stall_timeout now before after d on =
    let guard : StallGuard = record { stall_timeout = stall_timeout; established = false } in
    let limit = some (now + pos_part connect_timeout) in
    let established = record guard { established = true } in
    (
      rw (arm_connect_deadline-positive connect_timeout now d on)
          (guarded_all-IsBounded guard before limit refl),
      elim (Bool-cases (ltb_ℤ (pos 0) stall_timeout)) [
        | inl yes_stall ↦
            rw yes_stall (
              guarded_all-IsTimed established after (record { read = none; write = none })
                yes_stall)
        | inr no_stall ↦ rw no_stall (guarded_all-IsBounded established after none no_stall)
      ],
    )
