-- ===== src/Handler/Section/Count.antt =====
-- What the order in which a round's probes end does not change.
use go_you.Common.{
  suc, List, [], ◌∷◌, ◌++◌, ◌+◌, length, length-append, In, In-append, ◌≡◌, ◌↔◌, refl, ap, arith,
}
use go_you.Crawler.{Result, Finish, over, next}
use go_you.Handler.Section.{count_hits, accounts}

count_hits-append : (xs ys : List Result) → count_hits (xs ++ ys) ≡ count_hits xs + count_hits ys
unfolding count_hits
count_hits-append [] ys = omega arith
count_hits-append (x ∷ xs) ys = ground (arith, count_hits-append xs ys)

pub count_hits-Finish :
    (pending results : List Result)
    → Finish pending results
    → count_hits results ≡ count_hits pending
unfolding count_hits
count_hits-Finish _ _ over = refl
count_hits-Finish _ _ (next before after results r rest) = ground (
  arith,
  count_hits-Finish (before ++ after) results rest,
  count_hits-append before after,
  count_hits-append before (r ∷ after),
)

pub In-Finish :
    (pending results : List Result)
    → Finish pending results
    → (r : Result) → In r results ↔ In r pending
In-Finish _ _ over r = (λ h. h, λ h. h)
In-Finish _ _ (next before after results x rest) r = ground (
  arith,
  In-Finish (before ++ after) results rest r,
  In-append r before after,
  In-append r before (x ∷ after),
)

pub length-accounts : (results : List Result) → length (accounts results) ≡ length results
unfolding accounts
length-accounts [] = refl
length-accounts (r ∷ results) = ap suc (length-accounts results)

pub length-Finish :
    (pending results : List Result) → Finish pending results → length results ≡ length pending
length-Finish _ _ over = refl
length-Finish _ _ (next before after results x rest) = omega (
  arith,
  length-Finish (before ++ after) results rest,
  length-append before after,
  length-append before (x ∷ after),
)
