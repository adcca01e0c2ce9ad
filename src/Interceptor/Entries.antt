-- ===== src/Interceptor/Entries.antt =====
-- The list operations of A1/interceptor.c and the agreement of an entry's fields.
use csc369_uoft.Base.{
  distinct, ℕ, ◌-◌, ◌<◌, ◌≡◌, ◌≢◌, refl, true, false, List, [], ◌∷◌, arith, length, contains,
}
use csc369_uoft.Interceptor.{Entry}
use csc369_uoft.Interceptor.PidList.{unlink}
use csc369_uoft.Interceptor.Invariant.{EntryIsValid}
use csc369_uoft.Interceptor.Effects.{added, removed, emptied}

pub length-unlink :
    (pid : ℕ) (l : List ℕ) → contains pid l ≡ true → length (unlink pid l) ≡ length l - 1
unfolding unlink
length-unlink pid [] h = cc
length-unlink pid (p ∷ []) h = ground arith
length-unlink pid (p ∷ q ∷ l) h = ground (arith, length-unlink pid (q ∷ l))

pub contains-unlink_ne :
    (pid q : ℕ) (l : List ℕ) → pid ≢ q → contains q (unlink pid l) ≡ contains q l
unfolding unlink
contains-unlink_ne pid q [] ne = refl
contains-unlink_ne pid q (p ∷ l) ne = ground (arith, contains-unlink_ne pid q l ne)

pub contains-unlink_self :
    (pid : ℕ) (l : List ℕ) → distinct l ≡ true → contains pid (unlink pid l) ≡ false
unfolding unlink
contains-unlink_self pid [] d = refl
contains-unlink_self pid (p ∷ l) d = ground (arith, contains-unlink_self pid l)

distinct-unlink : (pid : ℕ) (l : List ℕ) → distinct l ≡ true → distinct (unlink pid l) ≡ true
unfolding unlink
distinct-unlink pid [] d = refl
distinct-unlink pid (p ∷ l) d = ground (arith, distinct-unlink pid l, contains-unlink_ne pid p l)

length_pos : (pid : ℕ) (l : List ℕ) → contains pid l ≡ true → 0 < length l
length_pos pid [] h = cc
length_pos pid (p ∷ l) h = omega arith

pub added-EntryIsValid :
    (pid : ℕ) {e : Entry}
    → EntryIsValid e
    → contains pid e.my_list ≡ false
    → EntryIsValid (added pid e)
added-EntryIsValid pid v h = ground arith

pub removed-EntryIsValid :
    (pid : ℕ) {e : Entry}
    → EntryIsValid e
    → contains pid e.my_list ≡ true
    → EntryIsValid (removed pid e)
removed-EntryIsValid pid {e} v h = ground (
  arith,
  length-unlink pid e.my_list h,
  distinct-unlink pid e.my_list v.distinct_pids,
  length_pos pid e.my_list h,
)

pub emptied-EntryIsValid : {e : Entry} → EntryIsValid e → EntryIsValid (emptied e)
emptied-EntryIsValid v = ground arith
