-- ===== src/Updater/Env/Triples.antt =====
-- Reasoning about runs: what holds after a run that began where `P` held, whether it returned or threw.
use forgetbase.Prelude.{
  String, ◌≡◌, refl, ◌++◌, ◌∷◌, [], Result, ok, err, Bool, true, false, if◌then◌else◌,
}
use forgetbase.Updater.Types.{Ledger}
use forgetbase.Updater.Env.{
  Env, Sys, Run, Frame, Call, is_ok, Outcome, pure, throw, lift, gets, catch, recover, continue,
  call, modify_frame, read, read_result, ◌>>=◌,
}

module _ {W A : Type 0} where
  abbrev pub After : (A → Sys W → Type 0) → (Sys W → Type 0) → Result A × Sys W → Type 0
  After Q E (ok a, s) = Q a s
  After Q E (err e, s) = E s

  pub record Triple (P : Sys W → Type 0) (m : Run W A) (Q : A → Sys W → Type 0) (E : Sys W → Type 0)
      : Type 0 where
    pub at : (s : Sys W) → P s → After Q E (m s)

  After-const : (G : Sys W → Type 0) (r : Result A) (s : Sys W) → G s → After (λ _. G) G (r, s)
  After-const G (ok a) s g = g
  After-const G (err e) s g = g

  After-weaken :
      {Q R : A → Sys W → Type 0} {E F : Sys W → Type 0}
      → ((a : A) (s : Sys W) → Q a s → R a s)
      → ((s : Sys W) → E s → F s)
      → (r : Result A) (s : Sys W) → After Q E (r, s)
      → After R F (r, s)
  After-weaken q e (ok a) s h = q a s h
  After-weaken q e (err x) s h = e s h

  pub Triple-weaken :
      {P P' E E' : Sys W → Type 0} {Q Q' : A → Sys W → Type 0} {m : Run W A}
      → Triple P m Q E
      → ((s : Sys W) → P' s → P s)
      → ((a : A) (s : Sys W) → Q a s → Q' a s)
      → ((s : Sys W) → E s → E' s)
      → Triple P' m Q' E'
  Triple-weaken {m} t p q e = record {
    at = λ s h. After-weaken q e (m s).0 (m s).1 (t.at s (p s h));
  }

  After-and :
      (Q : A → Sys W → Type 0) (E G : Sys W → Type 0) (r : Result A) (s : Sys W)
      → After Q E (r, s)
      → G s
      → After (λ a t. Q a t × G t) (λ t. E t × G t) (r, s)
  After-and Q E G (ok a) s q g = (q, g)
  After-and Q E G (err e) s q g = (q, g)

  -- A run that keeps a property of states, whether it returns or throws.
  pub record Keeps (G : Sys W → Type 0) (m : Run W A) : Type 0 where
    pub kept : (s : Sys W) → G s → G (m s).1

  pub Triple-Keeps : {G : Sys W → Type 0} {m : Run W A} → Keeps G m → Triple G m (λ _. G) G
  Triple-Keeps {G} {m} k = record { at = λ s g. After-const G (m s).0 (m s).1 (k.kept s g) }

  pub Keeps_After : (G : Sys W → Type 0) (r : Result A) (s : Sys W) → After (λ _. G) G (r, s) → G s
  Keeps_After G (ok a) s g = g
  Keeps_After G (err e) s g = g

  pub Keeps-Triple : {G : Sys W → Type 0} {m : Run W A} → Triple G m (λ _. G) G → Keeps G m
  Keeps-Triple {G} {m} t = record { kept = λ s g. Keeps_After G (m s).0 (m s).1 (t.at s g) }

  pub Triple-and :
      {P E G : Sys W → Type 0} {Q : A → Sys W → Type 0} {m : Run W A}
      → Triple P m Q E
      → Keeps G m
      → Triple (λ s. P s × G s) m (λ a s. Q a s × G s) (λ s. E s × G s)
  Triple-and {E} {G} {Q} {m} t k = record {
    at = λ s p. After-and Q E G (m s).0 (m s).1 (t.at s p.0) (k.kept s p.1);
  }

  pub Keeps-and :
      {G H : Sys W → Type 0} {m : Run W A} → Keeps G m → Keeps H m → Keeps (λ s. G s × H s) m
  Keeps-and k l = record { kept = λ s g. (k.kept s g.0, l.kept s g.1) }

  pub Keeps-pure : {G : Sys W → Type 0} (a : A) → Keeps G (pure a)
  unfolding pure
  Keeps-pure a = record { kept = λ s g. g }

  pub Keeps-lift : {G : Sys W → Type 0} (r : Result A) → Keeps G (lift r)
  unfolding lift
  Keeps-lift r = record { kept = λ s g. g }

  pub Keeps-gets : {G : Sys W → Type 0} (f : Sys W → A) → Keeps G (gets f)
  unfolding gets
  Keeps-gets f = record { kept = λ s g. g }

module _ {W A B : Type 0} where
  Keeps_continue :
      (G : Sys W → Type 0) (f : A → Run W B)
      → ((a : A) → Keeps G (f a))
      → (r : Result A) (s : Sys W) → G s
      → G (continue r f s).1
  Keeps_continue G f k (ok a) s g = (k a).kept s g
  Keeps_continue G f k (err e) s g = g

  pub Keeps-bind :
      {G : Sys W → Type 0} (m : Run W A) (f : A → Run W B)
      → Keeps G m
      → ((a : A) → Keeps G (f a))
      → Keeps G (m >>= f)
  unfolding ◌>>=◌
  Keeps-bind {G} m f k l = record {
    kept = λ s g. Keeps_continue G f l (m s).0 (m s).1 (k.kept s g);
  }

  After-continue :
      {Q : A → Sys W → Type 0} {R : B → Sys W → Type 0} {E : Sys W → Type 0} (f : A → Run W B)
      → ((a : A) → Triple (Q a) (f a) R E)
      → (r : Result A) (s : Sys W) → After Q E (r, s)
      → After R E (continue r f s)
  After-continue f t (ok a) s q = (t a).at s q
  After-continue f t (err e) s q = q

  pub Triple-bind :
      {P E : Sys W → Type 0} {Q : A → Sys W → Type 0} {R : B → Sys W → Type 0} {m : Run W A}
      {f : A → Run W B}
      → Triple P m Q E
      → ((a : A) → Triple (Q a) (f a) R E)
      → Triple P (m >>= f) R E
  unfolding ◌>>=◌
  Triple-bind {m} {f} t u = record { at = λ s p. After-continue f u (m s).0 (m s).1 (t.at s p) }

module _ {W A : Type 0} where
  After-recover :
      {Q : A → Sys W → Type 0} {E F : Sys W → Type 0} (h : String → Run W A)
      → ((e : String) → Triple E (h e) Q F)
      → (r : Result A) (s : Sys W) → After Q E (r, s)
      → After Q F (recover r h s)
  After-recover h t (ok a) s q = q
  After-recover h t (err e) s q = (t e).at s q

  pub Triple-catch :
      {P E F : Sys W → Type 0} {Q : A → Sys W → Type 0} {m : Run W A} {h : String → Run W A}
      → Triple P m Q E
      → ((e : String) → Triple E (h e) Q F)
      → Triple P (catch m h) Q F
  unfolding catch
  Triple-catch {m} {h} t u = record { at = λ s p. After-recover h u (m s).0 (m s).1 (t.at s p) }

  Keeps_recover :
      (G : Sys W → Type 0) (h : String → Run W A)
      → ((e : String) → Keeps G (h e))
      → (r : Result A) (s : Sys W) → G s
      → G (recover r h s).1
  Keeps_recover G h k (ok a) s g = g
  Keeps_recover G h k (err e) s g = (k e).kept s g

  pub Keeps-catch :
      {G : Sys W → Type 0} (m : Run W A) (h : String → Run W A)
      → Keeps G m
      → ((e : String) → Keeps G (h e))
      → Keeps G (catch m h)
  unfolding catch
  Keeps-catch {G} m h k l = record {
    kept = λ s g. Keeps_recover G h l (m s).0 (m s).1 (k.kept s g);
  }

  pub Keeps-if :
      {G : Sys W → Type 0} (b : Bool) (m n : Run W A)
      → Keeps G m
      → Keeps G n
      → Keeps G (if b then m else n)
  Keeps-if true m n k l = k
  Keeps-if false m n k l = l

module _ {W : Type 0} where
  pub Keeps-throw : (A : Type 0) {G : Sys W → Type 0} (e : String) → Keeps G (throw {A = A} e)
  unfolding throw
  Keeps-throw A e = record { kept = λ s g. g }

module _ {W A : Type 0} where
  -- the call `g` may give the result `a`
  abbrev pub MayReturn : (W → Result A × W) → A → Type 0
  MayReturn g a = (w : W) × ((g w).0 ≡ ok a)

  pub call_made :
      {G : Sys W → Type 0} (H : Bool → Sys W → Type 0) (c : Call) (g : W → Result A × W)
      → ((s : Sys W)
          → G s
          → (b : Bool) (w : W)
          → H b (record s {
            world = w;
            frame = record s.frame { calls = s.frame.calls ++ (c, b) ∷ [] };
          }))
      → Triple G (call c g) (λ a s. H true s × MayReturn g a) (H false)
  unfolding call
  call_made {G} H c g push = record { at = λ s h. result s h (g s.world).0 refl }
    where
      result :
          (s : Sys W)
          → G s
          → (r : Result A) → (g s.world).0 ≡ r
          → After
              (λ a t. H true t × MayReturn g a)
              (H false)
              (
                r,
                record s {
                  world = (g s.world).1;
                  frame = record s.frame { calls = s.frame.calls ++ (c, is_ok r) ∷ [] };
                },
              )
      result s h (ok a) e = (push s h true (g s.world).1, (s.world, e))
      result s h (err m) e = push s h false (g s.world).1

  pub call_last :
      {G H : Sys W → Type 0} (c : Call) (g : W → Result A × W)
      → ((s : Sys W)
          → G s
          → (b : Bool) (w : W)
          → H (record s {
            world = w;
            frame = record s.frame { calls = s.frame.calls ++ (c, b) ∷ [] };
          }))
      → Triple G (call c g) (λ _. H) H
  call_last {H} c g push =
      Triple-weaken (call_made (λ _. H) c g push) (λ s h. h) (λ a s h. h.0) (λ s h. h)

module _ {W A : Type 0} where
  -- what is known whatever the state
  pub Triple-given :
      {G : Sys W → Type 0} {K : Type 0} {m : Run W A} {E : Sys W → Type 0} {R : A → Sys W → Type 0}
      → ((k : K) → Triple G m R E)
      → Triple (λ s. G s × K) m R E
  Triple-given t = record { at = λ s h. (t h.1).at s h.0 }

-- One step of a run and then the rest of it; a failure at the step must be allowed by `E`.
module _ {W A B : Type 0} {E : Sys W → Type 0} {R : B → Sys W → Type 0} {f : A → Run W B} where
  pub keep_then :
      {G : Sys W → Type 0} {m : Run W A}
      → Keeps G m
      → ((s : Sys W) → G s → E s)
      → ((a : A) → Triple G (f a) R E)
      → Triple G (m >>= f) R E
  keep_then k e t = Triple-bind (Triple-weaken (Triple-Keeps k) (λ s g. g) (λ a s g. g) e) t

  pub call_then_made :
      {G : Sys W → Type 0} (H : Bool → Sys W → Type 0) (c : Call) (g : W → Result A × W)
      → ((s : Sys W)
          → G s
          → (b : Bool) (w : W)
          → H b (record s {
            world = w;
            frame = record s.frame { calls = s.frame.calls ++ (c, b) ∷ [] };
          }))
      → ((s : Sys W) → H false s → E s)
      → ((a : A) → Triple (λ s. H true s × MayReturn g a) (f a) R E)
      → Triple G (call c g >>= f) R E
  call_then_made H c g push e t =
      Triple-bind (Triple-weaken (call_made H c g push) (λ s h. h) (λ a s h. h) e) t

  pub call_then :
      {G : Sys W → Type 0} (H : Bool → Sys W → Type 0) (c : Call) (g : W → Result A × W)
      → ((s : Sys W)
          → G s
          → (b : Bool) (w : W)
          → H b (record s {
            world = w;
            frame = record s.frame { calls = s.frame.calls ++ (c, b) ∷ [] };
          }))
      → ((s : Sys W) → H false s → E s)
      → ((a : A) → Triple (H true) (f a) R E)
      → Triple G (call c g >>= f) R E
  call_then H c g push e t =
      Triple-bind (Triple-weaken (call_made H c g push) (λ s h. h) (λ a s h. h.0) e) t

  -- a result that is passed on, with what is known of it
  pub lift_then :
      {G : Sys W → Type 0} (r : Result A)
      → ((s : Sys W) → G s → E s)
      → ((a : A) → r ≡ ok a → Triple G (f a) R E)
      → Triple G (lift r >>= f) R E
  unfolding lift ◌>>=◌
  lift_then {G} r e t = record { at = λ s g. result r refl s g }
    where
      result : (x : Result A) → r ≡ x → (s : Sys W) → G s → After R E (continue x f s)
      result (ok a) q s g = (t a q).at s g
      result (err m) q s g = e s g

module _ {W B : Type 0} {E : Sys W → Type 0} {R : B → Sys W → Type 0} {f : Unit {0} → Run W B} where
  pub modify_then :
      {G H : Sys W → Type 0} (u : Frame → Frame)
      → ((s : Sys W) → G s → H (record s { frame = u s.frame }))
      → ((a : Unit {0}) → Triple H (f a) R E)
      → Triple G (modify_frame u >>= f) R E
  unfolding modify_frame
  modify_then u push t = Triple-bind (record { at = λ s g. push s g }) t

module _ {W : Type 0} (env : Env W) (G : Frame → Ledger → Type 0) where
  -- What is read is the ledger.
  pub read_same :
      Triple
        (λ s. G s.frame s.ledger)
        (read env)
        (λ l s. G s.frame s.ledger × (l ≡ s.ledger))
        (λ s. G s.frame s.ledger)
  unfolding read
  read_same = record { at = λ s g. result (env.io s.world).0 s g }
    where
      result :
          (o : Outcome) (s : Sys W)
          → G s.frame s.ledger
          → After
              (λ l s. G s.frame s.ledger × (l ≡ s.ledger))
              (λ s. G s.frame s.ledger)
              (read_result env o s.ledger, record s { world = (env.io s.world).1 })
      result Outcome.fine s g = (g, refl)
      result (Outcome.before e) s g = g
      result (Outcome.after e) s g = g

pub ruleset keeps_rules =
    (Keeps-pure, Keeps-throw, Keeps-lift, Keeps-gets, Keeps-bind, Keeps-catch, Keeps-if)
