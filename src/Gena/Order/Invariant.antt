-- ===== src/Gena/Order/Invariant.antt =====
-- The invariant of the events of a subscription of src/gena/gena_server.c, and that every step keeps it.
use upnpsdk.Prelude.{
  ℕ, zero, suc, ◌+◌, ◌<◌, ◌≤◌, ◌≡◌, ◌≢◌, refl, sym, ap, ◌∙◌, ◌⊎◌, inl, inr, true, List, [], ◌∷◌,
  arith, some, Bool-cases,
}
use upnpsdk.Prelude.Int.{ℤ, eqb_ℤ, eqb_ℤ→eq}
use upnpsdk.ServiceTable.{Subscription, copy_subscription}
use upnpsdk.Gena.{next_key}
use upnpsdk.Gena.Thread.{requeued, sends, start_found}
use upnpsdk.Gena.Order.{
  unissued, waiting, sending, over, Channel, set_at, key_count, do_issue, do_start, do_end, fresh,
}
use upnpsdk.Gena.Order.Keys.{key_at, key_at-distinct}

-- n - 1, ..., 0.
abbrev pub downs : ℕ → List ℕ
downs zero = []
downs (suc n) = n ∷ downs n

-- The first of the events that are not over is with the thread pool, or is being sent.
pub data Head (c : Channel) : Type 0 where
  rests : c.begun ≡ downs c.done → c.phase c.done ≢ sending → Head c
  runs : c.begun ≡ downs (suc c.done) → c.done < c.issued → c.phase c.done ≡ sending → Head c

pub record IsOrderly (c : Channel) : Type 0 where
  pub event_key : c.sub.event_key ≡ key_at c.issued
  pub to_send_event_key : c.sub.to_send_event_key ≡ key_at c.done
  pub bound : c.done ≤ c.issued
  pub window : c.issued < c.done + key_count
  pub keys : (n : ℕ) → n < c.issued → c.key n ≡ key_at n
  pub past : (n : ℕ) → n < c.done → c.phase n ≡ over
  pub behind : (n : ℕ) → c.done < n → n < c.issued → c.phase n ≡ waiting
  pub current : c.done < c.issued → (c.phase c.done ≡ waiting) ⊎ (c.phase c.done ≡ sending)
  pub future : (n : ℕ) → c.issued ≤ n → c.phase n ≡ unissued
  pub head : Head c

pub fresh-IsOrderly : (s : Subscription) → IsOrderly (fresh s)
unfolding key_at
fresh-IsOrderly s = record {
  event_key = refl;
  to_send_event_key = refl;
  bound = omega arith;
  window = omega arith;
  keys = λ n h. absurd (omega (arith, h));
  past = λ n h. absurd (omega (arith, h));
  behind = λ n h k. absurd (omega (arith, k));
  current = λ h. absurd (omega (arith, h));
  future = λ n h. refl;
  head = rests refl (λ e. cc);
}

pub set_at-here : {A : Type 0} (n : ℕ) (a : A) (f : ℕ → A) → set_at n a f n ≡ a
set_at-here n a f = ground arith

pub set_at-there : {A : Type 0} (n m : ℕ) (a : A) (f : ℕ → A) → m ≢ n → set_at n a f m ≡ f m
set_at-there n m a f h = ground arith

pub lt_or_ge : (a b : ℕ) → (a < b) ⊎ (b ≤ a)
lt_or_ge a b = ground arith

-- A job that has come and is not freed stands for an event that is not over.
pub pending :
    (c : Channel) (n : ℕ)
    → IsOrderly c
    → c.phase n ≢ over
    → c.phase n ≢ unissued
    → (c.done ≤ n) × (n < c.issued)
pending c n i a b = (
  elim (lt_or_ge n c.done) [ inl h ↦ absurd (a (i.past n h)) | inr h ↦ h ],
  elim (lt_or_ge n c.issued) [ inl h ↦ h | inr h ↦ absurd (b (i.future n h)) ],
)

-- What is being sent is the first of them.
pub sending-eq : (c : Channel) (n : ℕ) → IsOrderly c → c.phase n ≡ sending → n ≡ c.done
sending-eq c n i p =
    let (low, high) = pending c n i (λ e. cc) (λ e. cc) in
    elim (lt_or_ge c.done n) [
      | inl h ↦ absurd (let e = i.behind n h high in cc)
      | inr h ↦ omega arith
    ]

pub start_key :
    (key : ℤ) (s copy : Subscription)
    → start_found true key (some s) ≡ sends copy
    → key ≡ s.to_send_event_key
unfolding start_found copy_subscription
start_key key s copy e = elim (Bool-cases (eqb_ℤ key s.to_send_event_key)) [
  | inl h ↦ eqb_ℤ→eq key s.to_send_event_key h
  | inr h ↦ absurd (let r : start_found true key (some s) ≡ requeued = rw h refl in cc)
]

pub key_at_next : (n : ℕ) → next_key (key_at n) ≡ key_at (n + 1)
unfolding key_at
key_at_next n = ap key_at (let e : suc n ≡ n + 1 = omega arith in e)

-- What issuing leaves the phase of the first of them at.
issue-done :
    (c : Channel)
    → c.done ≤ c.issued
    → ((c.done ≡ c.issued) × (set_at c.issued waiting c.phase c.done ≡ waiting))
      ⊎ ((c.done < c.issued) × (set_at c.issued waiting c.phase c.done ≡ c.phase c.done))
issue-done c b = elim (lt_or_ge c.done c.issued) [
  | inl k ↦ inr (k, set_at-there c.issued c.done waiting c.phase (λ e. omega (arith, e, k)))
  | inr k ↦
      let e : c.done ≡ c.issued = omega (arith, k, b) in
      inl (e, rw e (set_at-here c.issued waiting c.phase))
]

issue-Head : (c : Channel) → c.done ≤ c.issued → Head c → Head (do_issue c)
issue-Head c b (rests g p) = rests g (λ e. elim (issue-done c b) [
  | inl (q, w) ↦ let f : waiting ≡ sending = sym w ∙ e in cc
  | inr (q, w) ↦ p (sym w ∙ e)
])
issue-Head c b (runs g h p) =
    runs g (omega (arith, h))
      (set_at-there c.issued c.done waiting c.phase (λ e. omega (arith, e, h)) ∙ p)

pub issue-IsOrderly :
    (c : Channel) → c.issued + 1 < c.done + key_count → IsOrderly c → IsOrderly (do_issue c)
unfolding key_at
issue-IsOrderly c w i = record {
  event_key = ap next_key i.event_key ∙ key_at_next c.issued;
  to_send_event_key = i.to_send_event_key;
  bound = omega (arith, i.bound);
  window = w;
  keys = λ n h. elim (lt_or_ge n c.issued) [
    | inl k ↦ set_at-there c.issued n c.sub.event_key c.key (λ e. omega (arith, e, k)) ∙ i.keys n k
    | inr k ↦
        let e : n ≡ c.issued = omega (arith, h, k) in
        rw e (set_at-here c.issued c.sub.event_key c.key ∙ i.event_key)
  ];
  past = λ n h.
      set_at-there c.issued n waiting c.phase (λ e. omega (arith, e, h, i.bound)) ∙ i.past n h;
  behind = λ n h k. elim (lt_or_ge n c.issued) [
    | inl b ↦ set_at-there c.issued n waiting c.phase (λ e. omega (arith, e, b)) ∙ i.behind n h b
    | inr b ↦
        let e : n ≡ c.issued = omega (arith, k, b) in rw e (set_at-here c.issued waiting c.phase)
  ];
  current = λ h. elim (issue-done c i.bound) [
    | inl (q, w) ↦ inl w
    | inr (q, w) ↦ elim (i.current q) [ inl e ↦ inl (w ∙ e) | inr e ↦ inr (w ∙ e) ]
  ];
  future = λ n h.
      set_at-there c.issued n waiting c.phase (λ e. omega (arith, e, h))
      ∙ i.future n (omega (arith, h));
  head = issue-Head c i.bound i.head;
}

pub start-IsOrderly :
    (c : Channel) (n : ℕ) (copy : Subscription)
    → c.phase n ≡ waiting
    → start_found true (c.key n) (some c.sub) ≡ sends copy
    → IsOrderly c
    → (n ≡ c.done) × IsOrderly (do_start n c)
start-IsOrderly c n copy p e i =
    let (low, high) = pending c n i (λ q. cc) (λ q. cc) in
    let here : n ≡ c.done = sym (
      key_at-distinct c.done n low (omega (arith, high, i.window))
        (sym i.to_send_event_key ∙ sym (start_key (c.key n) c.sub copy e) ∙ i.keys n high)) in
    (
      here,
      record {
        event_key = i.event_key;
        to_send_event_key = i.to_send_event_key;
        bound = i.bound;
        window = i.window;
        keys = i.keys;
        past = λ m h. set_at-there n m sending c.phase (λ q. omega (arith, q, h, low)) ∙ i.past m h;
        behind = λ m h k.
            set_at-there n m sending c.phase (λ q. omega (arith, q, h, here)) ∙ i.behind m h k;
        current = λ h. inr (rw (← here) (set_at-here n sending c.phase));
        future =
            λ m h. set_at-there n m sending c.phase (λ q. omega (arith, q, h, high)) ∙ i.future m h;
        head = elim i.head [
          | rests g q ↦
              runs (rw (here, g) refl) (omega (arith, here, high))
                (rw (← here) (set_at-here n sending c.phase))
          | runs g h q ↦ absurd (let r = sym p ∙ ap c.phase here ∙ q in cc)
        ];
      },
    )

end-Head :
    (c : Channel) (n : ℕ) → n ≡ c.done → c.phase n ≡ sending → IsOrderly c → Head (do_end n c)
end-Head c n here p i = elim i.head [
  | rests g q ↦ absurd (q (sym (ap c.phase here) ∙ p))
  | runs g h q ↦
      let there : (do_end n c).phase (c.done + 1) ≡ c.phase (c.done + 1) =
        set_at-there n (c.done + 1) over c.phase (λ e. omega (arith, e, here)) in
      rests (g ∙ ap downs (let e : suc c.done ≡ c.done + 1 = omega arith in e)) (λ e.
        elim (lt_or_ge (c.done + 1) c.issued) [
          | inl k ↦ let r = sym (i.behind (c.done + 1) (omega arith) k) ∙ sym there ∙ e in cc
          | inr k ↦ let r = sym (i.future (c.done + 1) k) ∙ sym there ∙ e in cc
        ])
]

pub end-IsOrderly :
    (c : Channel) (n : ℕ) → c.phase n ≡ sending → IsOrderly c → IsOrderly (do_end n c)
end-IsOrderly c n p i =
    let here = sending-eq c n i p in
    let (low, high) = pending c n i (λ q. cc) (λ q. cc) in
    record {
      event_key = i.event_key;
      to_send_event_key = ap next_key i.to_send_event_key ∙ key_at_next c.done;
      bound = omega (arith, here, high);
      window = omega (arith, i.window);
      keys = i.keys;
      past = λ m h. elim (lt_or_ge m c.done) [
        | inl k ↦ set_at-there n m over c.phase (λ q. omega (arith, q, k, low)) ∙ i.past m k
        | inr k ↦ let q : m ≡ n = omega (arith, h, k, here) in rw q (set_at-here n over c.phase)
      ];
      behind = λ m h k.
          set_at-there n m over c.phase (λ q. omega (arith, q, h, here))
          ∙ i.behind m (omega (arith, h)) k;
      current = λ h. inl (
          set_at-there n (c.done + 1) over c.phase (λ q. omega (arith, q, here))
          ∙ i.behind (c.done + 1) (omega arith) h);
      future = λ m h. set_at-there n m over c.phase (λ q. omega (arith, q, h, high)) ∙ i.future m h;
      head = end-Head c n here p i;
    }
