-- ===== src/Gena/Order/Serial.antt =====
-- In which order the messages of a subscription are sent by the jobs of src/gena/gena_server.c.
use upnpsdk.Prelude.{ℕ, zero, suc, ◌+◌, ◌≤◌, ◌≡◌, refl, sym, ap, ◌∙◌, arith, length}
use upnpsdk.ServiceTable.{Subscription}
use upnpsdk.Gena.Order.{
  sending, Channel, Step, issues, requeues, starts, finishes, Steps, stay, then, fresh,
}
use upnpsdk.Gena.Order.Invariant.{
  downs, rests, runs, IsOrderly, fresh-IsOrderly, issue-IsOrderly, start-IsOrderly, end-IsOrderly,
  sending-eq,
}

pub Step-IsOrderly : (a b : Channel) → Step a b → IsOrderly a → IsOrderly b
Step-IsOrderly a b (issues _ w) i = issue-IsOrderly a w i
Step-IsOrderly a b (requeues _ n p e) i = i
Step-IsOrderly a b (starts _ n copy p e) i = (start-IsOrderly a n copy p e i).1
Step-IsOrderly a b (finishes _ n p) i = end-IsOrderly a n p i

pub Steps-IsOrderly : (a b : Channel) → Steps a b → IsOrderly a → IsOrderly b
Steps-IsOrderly a b (stay _) i = i
Steps-IsOrderly a c (then _ b _ r s) i = Step-IsOrderly b c s (Steps-IsOrderly a b r i)

length-downs : (n : ℕ) → length (downs n) ≡ n
length-downs zero = refl
length-downs (suc n) = ap suc (length-downs n)

-- Whatever the order in which the thread pool runs the jobs of a new subscription, as long as it takes
-- every job that is handed back and fewer than 2^31 - 2 events wait: at most one message is being sent at a time, the messages begin in the order in which the events were issued, each
-- once, and none begins before the one before it has ended.
pub serial :
    (s : Subscription) (c : Channel)
    → Steps (fresh s) c
    → ((m n : ℕ) → c.phase m ≡ sending → c.phase n ≡ sending → m ≡ n)
      × (c.begun ≡ downs (length c.begun))
      × (c.done ≤ length c.begun)
      × (length c.begun ≤ c.done + 1)
serial s c r =
    let i = Steps-IsOrderly (fresh s) c r (fresh-IsOrderly s) in
    let one : (m n : ℕ) → c.phase m ≡ sending → c.phase n ≡ sending → m ≡ n =
      λ m n p q. sending-eq c m i p ∙ sym (sending-eq c n i q) in
    elim i.head [
      | rests g p ↦
          let l = ap length g ∙ length-downs c.done in
          (one, g ∙ ap downs (sym l), omega (arith, l), omega (arith, l))
      | runs g h p ↦
          let l = ap length g ∙ length-downs (suc c.done) in
          (one, g ∙ ap downs (sym l), omega (arith, l), omega (arith, l))
    ]
