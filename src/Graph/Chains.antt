-- ===== src/Graph/Chains.antt =====
-- Drawings put together, each between two places of a reader of its tags.
use skweltch.Prelude.{◌≡◌, refl, sym, Bool, true, false, some, Bytes}
use skweltch.Result.{Result, ok, same_ok}
use skweltch.Stream.{Writing, ◌>>=◌, ◌>>◌, put, got}
use skweltch.Graph.Tags.{Reader, outside, read_tags, Draws, Draws-bind}
use skweltch.Graph.Rows.{Turns, inner}

abbrev pub Any : {A : Type 0} → A → Type 0
Any a = Unit

-- Drawings one after another, behind a value that is read, and behind the rows so far.
pub then_turn :
    {q p r : Reader} {m n : Writing Unit} → Turns q m p → Turns p n r → Turns q (m >> n) r
then_turn h k = Draws-bind h (λ a u. k)

abbrev pub Rows : Reader → Writing Bool → Type 0
Rows q m = Draws Any q m (λ any. outside (inner any))

pub then_more :
    {q p : Reader} {m : Writing Unit} {n : Writing Bool} → Turns q m p → Rows p n → Rows q (m >> n)
then_more h k = Draws-bind h (λ a u. k)

pub with_any :
    {q r : Reader} {m : Writing Bool} {next : Bool → Writing Unit}
    → Rows q m
    → ((any : Bool) → Turns (outside (inner any)) (next any) r)
    → Turns q (m >>= next) r
with_any h k = Draws-bind h (λ any u. k any)

pub reads :
    {A B : Type 0} {Q : B → Type 0} {q : Reader} {s : B → Reader} {o : Result A}
    {next : A → Writing B}
    → ((a : A) → o ≡ ok a → Draws Q q (next a) s)
    → Draws Q q (got o >>= next) s
unfolding read_tags
reads {o = o} k = Draws-bind {P = λ a. o ≡ ok a} {m = got o} (record { ends = λ a e. (refl, e) }) k

pub writes : {q : Reader} (r : Reader) {s : Bytes} → read_tags s q ≡ some r → Turns q (put s) r
writes r h = record { ends = λ a e. (h, tt) }

pub one_of :
    {A : Type 0} {Q : A → Type 0} {q : Reader} {s : A → Reader} (b : Bool) {m n : Writing A}
    → Draws Q q m s
    → Draws Q q n s
    → Draws Q q (elim b [ true ↦ m | false ↦ n ]) s
one_of true h k = h
one_of false h k = k

pub no_more : (any : Bool) → Rows (outside (inner any)) (got (ok any))
unfolding read_tags
no_more any = record { ends = λ a e. (rw (sym (same_ok e)) refl, tt) }
