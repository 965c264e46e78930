-- ===== src/Communicator/Pending.antt =====
-- Counting what is pending: every removal is accounted for.
use bittensor_nexus_library.Prelude.{
  ℕ, ◌+◌, ◌≡◌, refl, sym, ap, ◌∙◌, subst, true, false, not, Option, none, some, List, [], ◌∷◌, map,
  count, ◌==◌, keep_if, All, nat_eq, if◌then◌else◌, arith, Bool-cases, inl, inr,
}
use bittensor_nexus_library.Prelude.Dict
use bittensor_nexus_library.Prelude.Dict.{
  Dict, IsDict, get-put, get-remove, put-IsDict, remove-IsDict,
}
use bittensor_nexus_library.ContextStore.{ContextId}
use bittensor_nexus_library.Communicator.{RequestId, PendingRequest}
use bittensor_nexus_library.Communicator.PendingRequests.{
  PendingRequests, is_expired, remove_all, pop_expired,
}

-- How many requests of a context are pending.
abbrev pub pending_of : ContextId → PendingRequests → ℕ
pending_of ctx d = count ctx (map (λ e. e.1.ctx_id) d)

abbrev pub one : ContextId → Option PendingRequest → ℕ
one ctx none = 0
one ctx (some request) = if request.ctx_id == ctx then 1 else 0

-- Each request stands under its own id.
abbrev pub Keyed : PendingRequests → Type 0
Keyed = All (λ e. e.0 ≡ e.1.request_id)

abbrev pub IsPending : PendingRequests → Type 0
IsPending d = IsDict d × Keyed d

pub pending_of-put :
    (ctx : ContextId) (k : RequestId) (r : PendingRequest) (d : PendingRequests)
    → Dict.get k d ≡ none
    → pending_of ctx (Dict.put k r d) ≡ pending_of ctx d + one ctx (some r)
unfolding Dict.get Dict.put count
pending_of-put ctx k r [] h = omega arith
pending_of-put ctx k r ((j, q) ∷ d) h =
    ground (arith, h, λ (e : Dict.get k d ≡ none). pending_of-put ctx k r d e)

pub remove_absent :
    (k : RequestId) (d : PendingRequests) → Dict.get k d ≡ none → Dict.remove k d ≡ d
unfolding Dict.get Dict.remove
remove_absent k [] h = refl
remove_absent k ((j, q) ∷ d) h = ground (arith, h, λ (e : Dict.get k d ≡ none). remove_absent k d e)

pub pending_of-remove :
    (ctx : ContextId) (k : RequestId) (d : PendingRequests)
    → IsDict d
    → pending_of ctx (Dict.remove k d) + one ctx (Dict.get k d) ≡ pending_of ctx d
unfolding Dict.get Dict.remove count
pending_of-remove ctx k [] h = omega arith
pending_of-remove ctx k ((j, q) ∷ d) (fresh, h) = elim (Bool-cases (j == k)) [
  | inl here ↦
      let same : j ≡ k = ground (arith, here) in
      let gone : Dict.remove k d ≡ d =
        remove_absent k d (subst (λ i. Dict.get i d ≡ none) same fresh) in
      rw (here, gone) (omega arith)
  | inr there ↦ rw there (omega (arith, pending_of-remove ctx k d h))
]

Keyed-put : (r : PendingRequest) (d : PendingRequests) → Keyed d → Keyed (Dict.put r.request_id r d)
unfolding Dict.put
Keyed-put r [] h = (refl, tt)
Keyed-put r ((j, q) ∷ d) (own, h) = ground (arith, own, h, Keyed-put r d h)

Keyed-remove : (k : RequestId) (d : PendingRequests) → Keyed d → Keyed (Dict.remove k d)
unfolding Dict.remove
Keyed-remove k [] h = tt
Keyed-remove k ((j, q) ∷ d) (own, h) = ground (arith, own, h, Keyed-remove k d h)

pub put-IsPending :
    (r : PendingRequest) (d : PendingRequests) → IsPending d → IsPending (Dict.put r.request_id r d)
put-IsPending r d (h, k) = (put-IsDict r.request_id r d h, Keyed-put r d k)

pub remove-IsPending :
    (k : RequestId) (d : PendingRequests) → IsPending d → IsPending (Dict.remove k d)
remove-IsPending k d (h, o) = (remove-IsDict k d h, Keyed-remove k d o)

-- Removing the requests one by one finds each of them.
Listed : List PendingRequest → PendingRequests → Type 0
Listed [] d = Unit
Listed (r ∷ rs) d = (Dict.get r.request_id d ≡ some r) × Listed rs (Dict.remove r.request_id d)

Listed-more :
    (rs : List PendingRequest) (k : RequestId) (q : PendingRequest) (d : PendingRequests)
    → Dict.get k d ≡ none
    → Listed rs d
    → Listed rs ((k, q) ∷ d)
unfolding Listed Dict.get Dict.remove
Listed-more [] k q d fresh h = tt
Listed-more (r ∷ rs) k q d fresh (found, h) =
    let apart : (k == r.request_id) ≡ false = ground (arith, fresh, found) in
    rw apart (
      found,
      Listed-more rs k q (Dict.remove r.request_id d)
          (get-remove r.request_id k d ∙ ground (arith, fresh)) h,
    )

expired-Listed :
    (now : ℕ) (d : PendingRequests)
    → IsPending d
    → Listed (keep_if (is_expired now) (Dict.values d)) d
unfolding Listed keep_if Dict.get Dict.remove
expired-Listed now [] h = tt
expired-Listed now ((k, q) ∷ d) ((fresh, h), (own, o)) =
    let ih = expired-Listed now d (h, o) in
    elim (Bool-cases (is_expired now q)) [
      | inl e ↦
          let here : (k == q.request_id) ≡ true = ground (arith, own) in
          let gone : Dict.remove q.request_id d ≡ d =
            remove_absent q.request_id d (subst (λ i. Dict.get i d ≡ none) own fresh) in
          rw (e, here, gone) (refl, ih)
      | inr e ↦ rw e (Listed-more (keep_if (is_expired now) (Dict.values d)) k q d fresh ih)
    ]

pending_of-remove_all :
    (ctx : ContextId) (rs : List PendingRequest) (d : PendingRequests)
    → IsPending d
    → Listed rs d
    → (pending_of ctx (remove_all rs d) + count ctx (map (λ r. r.ctx_id) rs) ≡ pending_of ctx d)
      × IsPending (remove_all rs d)
unfolding Listed remove_all count
pending_of-remove_all ctx [] d h l = (omega arith, h)
pending_of-remove_all ctx (r ∷ rs) d h (found, l) =
    let (counted, kept) =
      pending_of-remove_all ctx rs (Dict.remove r.request_id d) (remove-IsPending r.request_id d h)
        l in
    let once : pending_of ctx (Dict.remove r.request_id d) + one ctx (some r) ≡ pending_of ctx d =
      ap (λ o. pending_of ctx (Dict.remove r.request_id d) + one ctx o) (sym found)
      ∙ pending_of-remove ctx r.request_id d h.0 in
    (omega (arith, counted, once), kept)

-- What a sweep takes out is no longer pending, and nothing else is lost.
pub pending_of-pop_expired :
    (ctx : ContextId) (now : ℕ) (d : PendingRequests)
    → IsPending d
    → (pending_of ctx (pop_expired now d).1 + count ctx (map (λ r. r.ctx_id) (pop_expired now d).0)
        ≡ pending_of ctx d)
      × IsPending (pop_expired now d).1
unfolding pop_expired
pending_of-pop_expired ctx now d h =
    pending_of-remove_all ctx (keep_if (is_expired now) (Dict.values d)) d h
      (expired-Listed now d h)

remove_all_more :
    (rs : List PendingRequest) (k : RequestId) (q : PendingRequest) (d : PendingRequests)
    → Dict.get k d ≡ none
    → Listed rs d
    → remove_all rs ((k, q) ∷ d) ≡ (k, q) ∷ remove_all rs d
unfolding Listed remove_all Dict.get Dict.remove
remove_all_more [] k q d fresh h = refl
remove_all_more (r ∷ rs) k q d fresh (found, h) =
    let apart : (k == r.request_id) ≡ false = ground (arith, fresh, found) in
    rw apart (
      remove_all_more rs k q (Dict.remove r.request_id d)
        (get-remove r.request_id k d ∙ ground (arith, fresh)) h)

-- A sweep returns the expired requests in order of registration, and keeps the others as they stand.
pub pop_expired-keep_if :
    (now : ℕ) (d : PendingRequests)
    → IsPending d
    → pop_expired now d
      ≡ (keep_if (is_expired now) (Dict.values d), keep_if (λ e. not (is_expired now e.1)) d)
unfolding pop_expired remove_all keep_if Dict.remove
pop_expired-keep_if now [] h = refl
pop_expired-keep_if now ((k, q) ∷ d) ((fresh, h), (own, o)) =
    let rest = ap (λ r. r.1) (pop_expired-keep_if now d (h, o)) in
    elim (Bool-cases (is_expired now q)) [
      | inl e ↦
          let here : (k == q.request_id) ≡ true = ground (arith, own) in
          let gone : Dict.remove q.request_id d ≡ d =
            remove_absent q.request_id d (subst (λ i. Dict.get i d ≡ none) own fresh) in
          let rs = keep_if (is_expired now) (Dict.values d) in
          let removed : Dict.remove q.request_id ((k, q) ∷ d) ≡ d = ground (arith, here, gone) in
          rw e (ap (λ d'. (q ∷ rs, remove_all rs d')) removed ∙ ap (λ r. (q ∷ rs, r)) rest)
      | inr e ↦
          rw
            (
              e,
              remove_all_more (keep_if (is_expired now) (Dict.values d)) k q d fresh
                  (expired-Listed now d (h, o)),
              rest,
            )
            refl
    ]
