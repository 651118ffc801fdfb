-- ===== src/Subscriptions/Cursor.antt =====
-- The cursor starts at NULL, and nothing but a search that starts elsewhere moves it.
use tcp_udp_client_server.Base.{
  ◌≡◌, refl, inl, inr, arith, ◌==◌, Bool-cases, ◌+◌, ℕ, zero, suc, ◌<◌, ◌∙◌,
}
use tcp_udp_client_server.CString.{Bytes}
use tcp_udp_client_server.DList.{Ptr, null}
use tcp_udp_client_server.Outcome.{Outcome, ok, exited, fault, starved, then_run, pure}
use tcp_udp_client_server.Subscriptions.{
  Subscriptions, SubscriptionsList, subscriptions_create, next_loop, subscriptions_add_subscription,
  subscriptions_remove_subscription, subscriptions_get_next,
}

next_loop-null :
    (topic : Bytes) (k : ℕ) (l : SubscriptionsList) (c : Ptr) (h : Subscriptions)
    → c ≡ null
    → 0 < k
    → next_loop topic k l c h ≡ ok (null, l) h
unfolding next_loop
next_loop-null topic zero l c h e m = absurd (omega arith)
next_loop-null topic (suc k) l c h e m = rw e

-- With the cursor at NULL, subscriptions_get_next() finds nothing, whatever the list holds.
pub get_next-null :
    (l : SubscriptionsList) (topic : Bytes) (h : Subscriptions)
    → l.current ≡ null
    → subscriptions_get_next l topic h ≡ ok (null, l) h
unfolding subscriptions_get_next
get_next-null l topic h e = elim (Bool-cases (l.head == null)) [
  | inl z ↦ rw z
  | inr nz ↦ rw nz (next_loop-null topic (h.live + 1) l l.current h e (omega arith))
]

-- A call of the list's interface that returns, in any store.
pub data Call (l m : SubscriptionsList) : Type 0 where
  adds : (p : Ptr) (h g : Subscriptions) → subscriptions_add_subscription l p h ≡ ok m g → Call l m
  removes :
      (p : Ptr) (h g : Subscriptions) → subscriptions_remove_subscription l p h ≡ ok m g → Call l m
  gets_next :
      (topic : Bytes) (p : Ptr) (h g : Subscriptions)
      → subscriptions_get_next l topic h ≡ ok (p, m) g
      → Call l m

pub data Calls (l : SubscriptionsList) : SubscriptionsList → Type 0 where
  here : Calls l l
  next : {m n : SubscriptionsList} → Calls l m → Call m n → Calls l n

head_set :
    {S : Type 0} (l m : SubscriptionsList) (r : Outcome S Ptr) (g : S)
    → then_run r (λ p. pure (record l { head = p })) ≡ ok m g
    → m.current ≡ l.current
head_set l m (ok p s) g e = ground arith
head_set l m (exited c s) g e = cc
head_set l m fault g e = cc
head_set l m starved g e = cc

pub add-current :
    (l m : SubscriptionsList) (p : Ptr) (h g : Subscriptions)
    → subscriptions_add_subscription l p h ≡ ok m g
    → m.current ≡ l.current
unfolding subscriptions_add_subscription
add-current l m p h g e = head_set l m _ g e

pub remove-current :
    (l m : SubscriptionsList) (p : Ptr) (h g : Subscriptions)
    → subscriptions_remove_subscription l p h ≡ ok m g
    → m.current ≡ l.current
unfolding subscriptions_remove_subscription
remove-current l m p h g e = head_set l m _ g e

Call-current : (l m : SubscriptionsList) → Call l m → l.current ≡ null → m.current ≡ null
Call-current l m (adds p h g e) z = add-current l m p h g e ∙ z
Call-current l m (removes p h g e) z = remove-current l m p h g e ∙ z
Call-current l m (gets_next topic p h g e) z = ground (arith, get_next-null l topic h z)

Calls-current : {l m : SubscriptionsList} → Calls l m → l.current ≡ null → m.current ≡ null
Calls-current here z = z
Calls-current (next {m} {n} cs c) z = Call-current m n c (Calls-current cs z)

-- A list that subscriptions_create() made, after any calls that add, remove or get the next subscription:
-- subscriptions_get_next() returns NULL for every topic and in every store.
pub get_next-starved :
    {l : SubscriptionsList} (topic : Bytes) (h : Subscriptions)
    → Calls subscriptions_create l
    → subscriptions_get_next l topic h ≡ ok (null, l) h
get_next-starved {l} topic h cs = get_next-null l topic h (Calls-current cs refl)
