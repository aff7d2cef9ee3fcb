-- ===== src/Dead/Store.antt =====
-- assets/diagrams/gen/gen_dead.py, class Redis: the keys of one queue, and its scripts as methods.
-- Times are whole milliseconds and may be negative. An owner "C<n>" is the number n, and an ack ID
-- "<owner>:<seq>" is the pair: the strings sort as the pairs do while the owners' names have one
-- length and fewer than 10000 ids are handed out. A set is a list without repetitions.
pub mod Conserve
pub mod Reap
pub mod Valid
pub mod Handover
pub mod Marks
pub mod Detect
pub mod Wake
pub mod Queue
pub mod Implements
pub mod Simulate
mod Tests
use redisq.Base.{
  ℕ, suc, ◌+◌, ◌≡◌, refl, ite, Bool, true, false, ◌&&◌, ◌||◌, not, Option, none, some, List, [],
  ◌∷◌, ◌++◌, map, ltb, leb, ◌==◌, if◌then◌else◌, any, all, select, elem, add, discard, length,
  Result, ok, raise, ◌>>=◌, ◌>>◌, assert, or_raise, key_error, ℕ_discrete,
}
use redisq.Base.Int.{ℤ, pos, negsuc, ◌+ℤ◌, leb_ℤ, ltb_ℤ, eqb_ℤ}
use redisq.Base.Dict
use redisq.Base.Sort.{sorted}

pub record AckId : Type 0 where
  pub owner : ℕ
  pub index : ℕ

unfoldable pub AckId-discrete : Discrete AckId
unfolding ℕ_discrete
AckId-discrete = hlevel ℕ_discrete

-- HBT, GRACE, TICK, GAP and VT.
abbrev pub hbt : ℤ
hbt = pos 30000

abbrev pub grace : ℤ
grace = pos 2500

abbrev pub tick_min : ℤ
tick_min = pos 500

abbrev pub gap : ℤ
gap = pos 2000

abbrev pub vt : ℤ
vt = pos 300000

pub record Redis : Type 0 where
  pub lst : List ℕ
  pub pending : List (AckId × ℕ)
  pub dl : List (AckId × ℤ)
  pub hb : List (ℕ × ℤ)
  pub pres : List (ℕ × ℤ)
  pub clock : Option ℤ
  pub subs : List (ℕ × ℕ)
  pub idle : List ℕ
  pub seq : ℕ

abbrev pub init : Redis
init = record {
  lst = [];
  pending = [];
  dl = [];
  hb = [];
  pres = [];
  clock = none;
  subs = [];
  idle = [];
  seq = 1;
}

-- `self.subs.get(m, 0)`.
pub subscribers : Redis → ℕ → ℕ
subscribers r m = elim (Dict.get ℕ_discrete m r.subs) [ none ↦ 0 | some k ↦ k ]

pub pop_item : Redis → ℕ → ℤ → List ℕ → Redis × Option (AckId × ℕ)
pop_item r owner now [] = (record r { idle = add owner r.idle }, none)
pop_item r owner now (v ∷ rest) =
    let aid : AckId = record { owner = owner; index = r.seq } in
    (
      record r {
        lst = rest;
        pending = Dict.insert AckId-discrete aid v r.pending;
        dl = Dict.insert AckId-discrete aid (now +ℤ vt) r.dl;
        hb = Dict.insert ℕ_discrete owner (now +ℤ hbt) r.hb;
        seq = suc r.seq;
      },
      some (aid, v),
    )

pub pop_one : Redis → ℕ → ℤ → Redis × Option (AckId × ℕ)
unfolding pop_item
pop_one r owner now = pop_item r owner now r.lst

-- `del self.pending[aid], self.dl[aid]`.
pub ack : Redis → AckId → Result Redis
ack r aid = do
  _ ← or_raise key_error (Dict.get AckId-discrete aid r.pending)
  _ ← or_raise key_error (Dict.get AckId-discrete aid r.dl)
  ok (record r {
    pending = Dict.erase AckId-discrete aid r.pending;
    dl = Dict.erase AckId-discrete aid r.dl;
  })

drop_deadline : AckId → Redis → Redis
drop_deadline aid r = record r { dl = Dict.erase AckId-discrete aid r.dl }

pub move : Redis → AckId → Redis × ℕ
unfolding drop_deadline
move r aid = elim (Dict.get AckId-discrete aid r.pending) [
  | none ↦ (drop_deadline aid r, 0)
  | some v ↦ (
    drop_deadline aid
        (record r { lst = v ∷ r.lst; pending = Dict.erase AckId-discrete aid r.pending }),
    1,
  )
]

pub data Note : Type 0 where
  ran_out mark gone waiting : ℕ → Note
  reap : List ℕ → Note

-- `last is not None and now - last > GAP`.
stalled : Option ℤ → ℤ → Bool
stalled none now = false
stalled (some last) now = ltb_ℤ (last +ℤ gap) now

-- `last is None or now - last >= TICK or now < last`.
pub moves_clock : Option ℤ → ℤ → Bool
moves_clock none now = true
moves_clock (some last) now = leb_ℤ (last +ℤ tick_min) now || ltb_ℤ now last

-- The sweeping object renews its own heartbeat, and its presence is 0 again.
renew : Redis → ℕ → ℤ → Redis
renew r me now = elim (Dict.get ℕ_discrete me r.hb) [
  | none ↦ r
  | some _ ↦ record r {
    hb = Dict.insert ℕ_discrete me (now +ℤ hbt) r.hb;
    pres = elim (Dict.get ℕ_discrete me r.pres) [
      | none ↦ r.pres
      | some _ ↦ Dict.insert ℕ_discrete me (pos 0) r.pres
    ];
  }
]

-- What the sweep's loop over the members carries.
pub record Seen : Type 0 where
  pub pres : List (ℕ × ℤ)
  pub dead : List ℕ
  pub notes : List Note

-- One round of the presence loop, for member `m`; `s` is its mark.
pub check_mark : ℕ → ℤ → Bool → Seen → Option ℤ → Seen
check_mark m now subscribed c none =
    if subscribed then record c { pres = Dict.insert ℕ_discrete m (pos 0) c.pres } else c
check_mark m now subscribed c (some s) =
    if subscribed
    then if eqb_ℤ s (pos 0) then c else record c { pres = Dict.insert ℕ_discrete m (pos 0) c.pres }
    else if eqb_ℤ s (pos 0)
    then record c { pres = Dict.insert ℕ_discrete m now c.pres; notes = c.notes ++ mark m ∷ [] }
    else if leb_ℤ (s +ℤ grace) now
    then record c { dead = add m c.dead; notes = c.notes ++ gone m ∷ [] }
    else record c { notes = c.notes ++ waiting m ∷ [] }

pub check_member : Redis → ℤ → Seen → ℕ → Seen
unfolding check_mark
check_member r now c m = check_mark m now (ltb 0 (subscribers r m)) c (Dict.get ℕ_discrete m c.pres)

pub check_members : Redis → ℤ → List ℕ → Seen → Seen
unfolding check_member
check_members r now [] c = c
check_members r now (m ∷ ms) c = check_members r now ms (check_member r now c m)

-- The members whose heartbeat ran out, and those whose presence is checked.
abbrev pub expired : ℤ → List (ℕ × ℤ) → List ℕ
expired now hb = Dict.keys (select (λ e. leb_ℤ e.1 now) hb)

abbrev pub present : ℤ → List (ℕ × ℤ) → List ℕ
present now hb = Dict.keys (select (λ e. leb_ℤ now e.1) hb)

pub find_dead : Redis → ℤ → Bool → Seen
unfolding check_members
find_dead r now ticked =
    let dead = expired now r.hb in
    let c : Seen = record {
      pres = r.pres;
      dead = dead;
      notes = map (λ m. ran_out m) (sorted leb dead);
    } in
    if ticked then check_members r now (sorted leb (present now r.hb)) c else c

-- `sorted(a for a in self.pending if a.split(":")[0] in dead)`.
abbrev pub aid_le : AckId → AckId → Bool
aid_le a b = ltb a.owner b.owner || a.owner == b.owner && leb a.index b.index

pub dead_ids : List ℕ → List (AckId × ℕ) → List AckId
dead_ids dead pending = sorted aid_le (select (λ a. elem a.owner dead) (Dict.keys pending))

pub move_all : List AckId → Redis → ℕ → Redis × ℕ
move_all [] r n = (r, n)
move_all (a ∷ rest) r n = let (r', k) = move r a in move_all rest r' (n + k)

pub forget : List ℕ → Redis → Redis
forget [] r = r
forget (m ∷ ms) r =
    forget ms
      (record r { hb = Dict.erase ℕ_discrete m r.hb; pres = Dict.erase ℕ_discrete m r.pres })

pub reap_dead : Redis → List ℕ → Redis × ℕ
unfolding forget move_all dead_ids
reap_dead r dead = let (r', n) = move_all (dead_ids dead r.pending) r 0 in (forget dead r', n)

unless_empty : List ℕ → List Note → List Note
unless_empty [] notes = notes
unless_empty (m ∷ ms) notes = notes ++ reap (sorted leb (m ∷ ms)) ∷ []

abbrev pub Swept : Type 0
Swept = Redis × ℕ × Bool × List Note

-- The part of the sweep behind `if last is not None`, after the clock and the renewal.
pub sweep : Redis → ℤ → Bool → Swept
unfolding find_dead reap_dead unless_empty
sweep r now ticked =
    let c = find_dead r now ticked in
    let (r', n) = reap_dead (record r { pres = c.pres }) c.dead in
    (r', n, ticked, unless_empty c.dead c.notes)

-- The state after the clock moved and the own heartbeat is renewed.
pub begin : Redis → ℕ → ℤ → Redis
unfolding renew
begin r me now = renew (if moves_clock r.clock now then record r { clock = some now } else r) me now

pub finish : Option ℤ → Redis → ℤ → Bool → Swept
finish none r now ticked = (r, 0, ticked, [])
finish (some _) r now ticked = sweep r now ticked

pub tick : Redis → ℕ → ℤ → Result Swept
tick r me now = do
  assert (not (stalled r.clock now))
  assert (all (λ e. ltb_ℤ now e.1) r.dl)
  ok (finish r.clock (begin r me now) now (moves_clock r.clock now))

-- `wake`: `order` is one possible sequence of SPOP's picks.
pub wake_loop : List ℕ → ℕ → Redis → List ℕ → Redis × List ℕ
wake_loop [] n r woken = (r, woken)
wake_loop (m ∷ order) n r woken =
    let skip = leb n (length woken) || not (elem m r.idle) in
    wake_loop order n (if skip then r else record r { idle = discard m r.idle })
      (if skip then woken else if ltb 0 (subscribers r m) then woken ++ m ∷ [] else woken)

pub wake : Redis → ℕ → List ℕ → Redis × List ℕ
unfolding wake_loop
wake r n order = wake_loop order n r []
