-- ===== src/ConnPool/Count.antt =====
-- internal/dbconnpool/dbconnpool.go: the counter of connections against the threads and the channel.
use sfpg_go.Base.{
  ◌&&◌, ap, sym, ℕ, suc, ◌+◌, ◌≡◌, refl, true, false, List, [], ◌∷◌, length, length-append, ◌++◌,
  if_split, arith,
}
use sfpg_go.Base.Int.{ℤ, pos, ◌+ℤ◌, ◌≤ℤ◌, +ℤ_parts, leb_ℤ, ltb_ℤ, int_laws}
use sfpg_go.ConnPool.Create.{CpConn, DbSqlConnPool}
use sfpg_go.ConnPool.Threads.{
  Thread, Choice, drop_connection, load_slot, swap_slot, receive, select_send, get_creating,
  get_swapping, get_undoing, get_checking, get_dropping, holding, put_start, put_open, put_sending,
  put_dropping, panicked, monitor_undoing, monitor_creating, monitor_dropping, monitor_swapping,
  monitor_sending, monitor_closing, close_dropping,
}

-- The slots of the counter that a thread answers for: a connection that it holds, makes or has not yet
-- counted off.
abbrev pub slots : Thread → ℕ
slots get_creating = 1
slots (get_undoing e) = 1
slots (get_checking c) = 1
slots (get_dropping c) = 1
slots (holding c) = 1
slots (put_start c) = 1
slots (put_open c) = 1
slots (put_sending c) = 1
slots (put_dropping c) = 1
slots panicked = 1
slots monitor_undoing = 1
slots (monitor_creating n) = 1
slots (monitor_dropping n) = 1
slots (monitor_sending n c) = 1
slots (monitor_closing n) = 1
slots close_dropping = 1
slots _ = 0

-- A thread that is about to swap the counter has read a value below the maximum.
abbrev pub Swaps : ℤ → Thread → Type 0
Swaps most (get_swapping current) = current +ℤ pos 1 ≤ℤ most
Swaps most (monitor_swapping n current) = current +ℤ pos 1 ≤ℤ most
Swaps most _ = Unit

unfoldable pub all_slots : List Thread → ℕ
all_slots [] = 0
all_slots (t ∷ ts) = slots t + all_slots ts

unfoldable pub AllSwap : ℤ → List Thread → Type 0
AllSwap most [] = Unit
AllSwap most (t ∷ ts) = Swaps most t × AllSwap most ts

-- What one step does to the counter, the channel and the thread's slots.
pub record Balanced (p : DbSqlConnPool) (t : Thread) (r : DbSqlConnPool × Thread) : Type 0 where
  pub counted :
      r.0.num_connections +ℤ pos (length p.connections + slots t)
      ≡ p.num_connections +ℤ pos (length r.0.connections + slots r.1)
  pub bounded : p.num_connections ≤ℤ p.max_connections → r.0.num_connections ≤ℤ r.0.max_connections
  pub same_max : r.0.max_connections ≡ p.max_connections
  pub swaps : Swaps p.max_connections r.1

-- The shapes of a step: the pool stays, the counter goes down or up, the channel loses or gains one.
pub stays :
    (p : DbSqlConnPool) (t t' : Thread)
    → slots t' ≡ slots t
    → Swaps p.max_connections t'
    → Balanced p t (p, t')
stays p t t' e w = record {
  counted = ap (λ k. p.num_connections +ℤ pos (length p.connections + k)) (sym e);
  bounded = λ h. h;
  same_max = refl;
  swaps = w;
}

pub drops :
    (p : DbSqlConnPool) (t t' : Thread)
    → slots t ≡ suc (slots t')
    → Swaps p.max_connections t'
    → Balanced p t (drop_connection p, t')
drops p t t' e w = record {
  counted = omega int_laws;
  bounded = λ h. omega int_laws;
  same_max = refl;
  swaps = w;
}

pub rises :
    (p : DbSqlConnPool) (t t' : Thread) (current : ℤ)
    → slots t' ≡ suc (slots t)
    → Swaps p.max_connections t'
    → (leb_ℤ p.num_connections current && leb_ℤ current p.num_connections) ≡ true
    → current +ℤ pos 1 ≤ℤ p.max_connections
    → Balanced p t (record p { num_connections = current +ℤ pos 1 }, t')
rises p t t' current e w same h = record {
  counted = omega (int_laws, unchanged);
  bounded = λ _. h;
  same_max = refl;
  swaps = w;
}
  where
    unchanged : (p.num_connections ≤ℤ current) × (current ≤ℤ p.num_connections)
    unchanged = ground arith

sends :
    (p : DbSqlConnPool) (c : CpConn) (t t' : Thread)
    → slots t ≡ suc (slots t')
    → Swaps p.max_connections t'
    → Balanced p t (record p { connections = p.connections ++ c ∷ [] }, t')
sends p c t t' e w = record {
  counted = omega (int_laws, length-append p.connections (c ∷ []));
  bounded = λ b. b;
  same_max = refl;
  swaps = w;
}

pub swap_slot-Balanced :
    (p : DbSqlConnPool) (t retry reserved : Thread) (current : ℤ)
    → slots t ≡ 0
    → slots retry ≡ 0
    → slots reserved ≡ 1
    → Swaps p.max_connections retry
    → Swaps p.max_connections reserved
    → current +ℤ pos 1 ≤ℤ p.max_connections
    → Balanced p t (swap_slot p current retry reserved)
unfolding swap_slot
swap_slot-Balanced p t retry reserved current e f g v w h =
    if_split (Balanced p t) (leb_ℤ p.num_connections current && leb_ℤ current p.num_connections)
      (λ same.
        let k : slots reserved ≡ suc (slots t) = omega arith in
        rises p t reserved current k w same h)
      (λ _. let k : slots retry ≡ slots t = omega arith in stays p t retry k v)

pub load_slot-Balanced :
    (p : DbSqlConnPool) (t full : Thread) (swap : ℤ → Thread)
    → slots t ≡ 0
    → slots full ≡ 0
    → slots (swap p.num_connections) ≡ 0
    → Swaps p.max_connections full
    → (p.num_connections +ℤ pos 1 ≤ℤ p.max_connections
        → Swaps p.max_connections (swap p.num_connections))
    → Balanced p t (load_slot p full swap)
unfolding load_slot
load_slot-Balanced p t full swap e f g v w =
    if_split (Balanced p t) (leb_ℤ p.max_connections p.num_connections)
      (λ _. let k : slots full ≡ slots t = omega arith in stays p t full k v)
      (λ room.
        let k : slots (swap p.num_connections) ≡ slots t = omega arith in
        stays p t (swap p.num_connections) k (w (below room)))
  where
    below :
        leb_ℤ p.max_connections p.num_connections ≡ false
        → p.num_connections +ℤ pos 1 ≤ℤ p.max_connections
    below room = ground (arith, +ℤ_parts p.num_connections (pos 1))

pub receive-Balanced :
    (p : DbSqlConnPool) (t empty : Thread) (taken : CpConn → Thread) (cs : List CpConn)
    → p.connections ≡ cs
    → slots t ≡ 0
    → slots empty ≡ 0
    → ((c : CpConn) → slots (taken c) ≡ 1)
    → Swaps p.max_connections empty
    → ((c : CpConn) → Swaps p.max_connections (taken c))
    → Balanced p t (receive p cs taken empty)
receive-Balanced p t empty taken [] e f g h v w =
    let k : slots empty ≡ slots t = omega arith in stays p t empty k v
receive-Balanced p t empty taken (c ∷ cs) e f g h v w = record {
  counted = omega (int_laws, ap length e, h c);
  bounded = λ b. b;
  same_max = refl;
  swaps = w c;
}

pub send-Balanced :
    (ch : Choice) (p : DbSqlConnPool) (c : CpConn) (t sent full : Thread)
    → slots t ≡ 1
    → slots sent ≡ 0
    → slots full ≡ 1
    → Swaps p.max_connections sent
    → Swaps p.max_connections full
    → Balanced p t (select_send ch p c sent full)
unfolding select_send
send-Balanced ch p c t sent full e f g v w =
    if_split (Balanced p t) p.channel_closed (λ _. stays p t panicked (sym e) tt)
      (λ _.
        if_split (Balanced p t) (ltb_ℤ (pos (length p.connections)) p.max_connections)
          (λ _. let k : slots t ≡ suc (slots sent) = omega arith in sends p c t sent k v)
          (λ _. let k : slots full ≡ slots t = omega arith in stays p t full k w))
