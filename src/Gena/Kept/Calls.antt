-- ===== src/Gena/Kept/Calls.antt =====
-- The calls of src/gena/gena_server.c on one table of handles, in any order: those of the device's
-- application, the two stretches of each job, and the requests. Each runs while it holds the mutex of
-- the table.
use upnpsdk.Prelude.{ℕ, ◌≡◌, subst, Bool, Option, some, List}
use upnpsdk.Prelude.Int.{ℤ}
use upnpsdk.Http.Message.{Message}
use upnpsdk.Api.Handles.{HandleTable}
use upnpsdk.Gena.{NotifyThread}
use upnpsdk.Gena.Calls.{unregister_device, Outcomes, init_notify, notify_all}
use upnpsdk.Gena.Thread.{thread_start, thread_end}
use upnpsdk.Gena.Replies.{Around}
use upnpsdk.Gena.Requests.{Search}
use upnpsdk.Gena.Subscribe.{New, replies, SubscriptionRequest, by_method}
use upnpsdk.Gena.Kept.{IsTableKept}
use upnpsdk.Gena.Kept.Operations.{start-IsTableKept, end-IsTableKept}
use upnpsdk.Gena.Kept.Events.{unregister-IsTableKept, init-IsTableKept, notify_all-IsTableKept}
use upnpsdk.Gena.Kept.Callback.{IsEndingKept, by_method-IsEndingKept}

-- One call, from a table to the table that it leaves.
pub data Call : HandleTable → HandleTable → Type 0 where
  unregisters : (handle : ℤ) (t : HandleTable) → Call t (unregister_device handle t).1
  inits :
      (o : Outcomes) (now : ℤ) (text : ℤ × List ℕ) (handle : ℤ) (udn serv_id sid : List ℕ)
      (t : HandleTable)
      → Call t (init_notify o now text handle udn serv_id sid t).1
  notifies_all :
      (before : Bool × Bool) (memory : ℕ → Bool) (tpool : ℕ → ℤ) (now : ℤ) (text : ℤ × List ℕ)
      (handle : ℤ) (udn serv_id : List ℕ) (t : HandleTable)
      (r : ℤ × HandleTable × List NotifyThread)
      → notify_all before memory tpool now text handle udn serv_id t ≡ some r
      → Call t r.1
  starts :
      (copy_ok : Bool) (now : ℤ) (job : NotifyThread) (t : HandleTable)
      → Call t (thread_start copy_ok now job t).1
  ends : (code now : ℤ) (job : NotifyThread) (t : HandleTable) → Call t (thread_end code now job t)
  answers :
      (a : Around) (n : New) (s : Search) (m : Message) (t t' : HandleTable) (text : List ℕ)
      (event : Option SubscriptionRequest)
      → by_method a n s m t ≡ replies text t' event
      → Call t t'

pub data Calls : HandleTable → HandleTable → Type 0 where
  stay : (t : HandleTable) → Calls t t
  then : (t u v : HandleTable) → Calls t u → Call u v → Calls t v

Call-IsTableKept : (t u : HandleTable) → Call t u → IsTableKept t → IsTableKept u
Call-IsTableKept t u (unregisters handle _) h = unregister-IsTableKept handle t h
Call-IsTableKept t u (inits o now text handle udn serv_id sid _) h =
    init-IsTableKept o now text handle udn serv_id sid t h
Call-IsTableKept t u (notifies_all before memory tpool now text handle udn serv_id _ r e) h =
    notify_all-IsTableKept before memory tpool now text handle udn serv_id t r h e
Call-IsTableKept t u (starts copy_ok now job _) h = start-IsTableKept copy_ok now job t h
Call-IsTableKept t u (ends code now job _) h = end-IsTableKept code now job t h
Call-IsTableKept t u (answers a n s m _ _ text event e) h =
    subst IsEndingKept e (by_method-IsEndingKept a n s m t h)

-- Whatever such calls, jobs and requests follow each other, with whatever outcomes of memory, clock, sockets
-- and thread pool: in every service of every handle the count of the subscriptions stays their number,
-- and the limit on them, where the device has one, is kept.
pub Calls-IsTableKept : (t u : HandleTable) → Calls t u → IsTableKept t → IsTableKept u
Calls-IsTableKept t u (stay _) h = h
Calls-IsTableKept t v (then _ u _ r c) h = Call-IsTableKept u v c (Calls-IsTableKept t u r h)
