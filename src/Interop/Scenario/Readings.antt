-- ===== src/Interop/Scenario/Readings.antt =====
-- What the calls and the tests of `scenarios` leave in the history where they return.
use wu_kong_easy_sdk_csharp.Common.{
  ℕ, String, Bool, true, false, not, [], ◌∷◌, ◌++◌, ◌==◌, ◌≡◌, refl, arith, ◌⊎◌, inl, inr,
  if◌then◌else◌,
}
use wu_kong_easy_sdk_csharp.Python.Result.{ok, err}
use wu_kong_easy_sdk_csharp.Python.Json.{Json}
use wu_kong_easy_sdk_csharp.Python.Coroutine.{History, followed_by}
use wu_kong_easy_sdk_csharp.Python.Coroutine.Script.{Script, give, call}
use wu_kong_easy_sdk_csharp.Python.Coroutine.Ensures.{Ensures}
use wu_kong_easy_sdk_csharp.Python.Coroutine.Leads.{Assertion}
use wu_kong_easy_sdk_csharp.Python.Coroutine.Gives.{
  Found, Gives, Gives-weaken, Gives-bind, Gives-give, Gives-from_result, Asked,
}
use wu_kong_easy_sdk_csharp.Interop.Actor.{Reject, succeeds}
use wu_kong_easy_sdk_csharp.Interop.Scenario.{
  Operation, Call, Answer, Client, Local, state, truthy, subscript,
}
use wu_kong_easy_sdk_csharp.Interop.Scenario.Calls.{command, count, attempts, close_client, sleep}
use wu_kong_easy_sdk_csharp.Interop.Scenario.Stages.{
  is_connected, or_else, has_counted, has_attempted,
}

module _ {P : Assertion Answer Local} where
  pub Gives-command :
      (client : ℕ) (op : Operation) (expect : Reject)
      → Gives P
          (call (command client op expect))
          (λ v h s. Asked P (Call.command client op expect) (ok v) h s)
  unfolding command call followed_by Ensures
  Gives-command client op expect = record {
    at = λ h s p r.
        elim r
          as (λ r.
            Found {Call = Call} {Answer = Answer} {S = Local}
              (λ v h' s'. Asked P (Call.command client op expect) (ok v) h' s')
              (h ++ ((Call.command client op expect, r) ∷ [])) (r, s)) [
                | ok v ↦ record { before = h; held = p; history = refl }
                | err e ↦ tt
              ];
  }

  pub Gives-count :
      (client : ℕ) (kind : String)
      → Gives P (call (count client kind)) (λ n h s. Asked P (Call.count client kind) n h s)
  unfolding count call followed_by Ensures
  Gives-count client kind = record {
    at = λ h s p r. record { before = h; held = p; history = refl };
  }

  pub Gives-attempts :
      (proxy : ℕ) → Gives P (call (attempts proxy)) (λ n h s. Asked P (Call.attempts proxy) n h s)
  unfolding attempts call followed_by Ensures
  Gives-attempts proxy = record { at = λ h s p r. record { before = h; held = p; history = refl } }

  pub Gives-sleep :
      (milliseconds : ℕ)
      → Gives P (call (sleep milliseconds)) (λ u h s. Asked P (Call.sleep milliseconds) (ok tt) h s)
  unfolding sleep call followed_by Ensures
  Gives-sleep milliseconds = record {
    at = λ h s p r.
        elim r
          as (λ r.
            Found {Call = Call} {Answer = Answer} {S = Local}
              (λ u h' s'. Asked P (Call.sleep milliseconds) (ok u) h' s')
              (h ++ ((Call.sleep milliseconds, r) ∷ [])) (r, s)) [
                | ok u ↦ record { before = h; held = p; history = refl }
                | err e ↦ tt
              ];
  }

  pub Gives-close_client :
      (client : ℕ)
      → Gives P
          (call (close_client client))
          (λ u h s. Asked P (Call.close_client client) (ok tt) h s)
  unfolding close_client call followed_by Ensures
  Gives-close_client client = record {
    at = λ h s p r.
        elim r
          as (λ r.
            Found {Call = Call} {Answer = Answer} {S = Local}
              (λ u h' s'. Asked P (Call.close_client client) (ok u) h' s')
              (h ++ ((Call.close_client client, r) ∷ [])) (r, s)) [
                | ok u ↦ record { before = h; held = p; history = refl }
                | err e ↦ tt
              ];
  }

-- The client has answered a command for its state, with this truth of "connected".
pub record State (P : Assertion Answer Local) (client : Client) (b : Bool) (h : History Answer)
    (s : Local) : Type 0 where
  pub seen : Json
  pub value : Json
  pub asked : Asked P (Call.command client.handle state succeeds) (ok seen) h s
  pub found : subscript seen "connected" ≡ ok value
  pub truth : b ≡ truthy value

pub Gives-is_connected :
    (P : Assertion Answer Local) (client : Client) → Gives P (is_connected client) (State P client)
unfolding is_connected
Gives-is_connected P client = Gives-bind _ _ (Gives-command client.handle state succeeds) (λ v.
    Gives-bind _ _ (Gives-from_result (subscript v "connected")) (λ w.
      Gives-weaken _
        (λ b h s ((a, e), same). record { seen = v; value = w; asked = a; found = e; truth = same })
        (Gives-give (truthy w))))

-- The count was n, and b says whether that differs from the one before.
pub Gives-has_counted :
    (P : Assertion Answer Local) (client : Client) (kind : String) (previous : ℕ)
    → Gives P (has_counted client kind previous) (λ b h s.
      (n : ℕ) × Asked P (Call.count client.handle kind) n h s × (b ≡ not (n == previous)))
unfolding has_counted
Gives-has_counted P client kind previous =
    Gives-bind _ _ (Gives-count client.handle kind)
      (λ n. Gives-weaken _ (λ b h s (a, same). (n, a, same)) (Gives-give (not (n == previous))))

pub Gives-has_attempted :
    (P : Assertion Answer Local) (proxy previous : ℕ)
    → Gives P
        (has_attempted proxy previous)
        (λ b h s. (n : ℕ) × Asked P (Call.attempts proxy) n h s × (b ≡ not (n == previous)))
unfolding has_attempted
Gives-has_attempted P proxy previous =
    Gives-bind _ _ (Gives-attempts proxy)
      (λ n. Gives-weaken _ (λ b h s (a, same). (n, a, same)) (Gives-give (not (n == previous))))

then_else :
    (Q R : Bool → Assertion Answer Local) (first : Bool) (b : Script Answer Local Bool)
    → Gives (Q false) b R
    → Gives (Q first) (if first then give true else b) (λ v h s. (v ≡ true) ⊎ R v h s)
then_else Q R true b k = Gives-weaken _ (λ v h s (p, e). inl e) (Gives-give true)
then_else Q R false b k = Gives-weaken b (λ v h s r. inr r) k

-- Where `a or b` is false, so are both, the second after the first.
pub Gives-or_else :
    {P : Assertion Answer Local} {Q R : Bool → Assertion Answer Local}
    (a b : Script Answer Local Bool)
    → Gives P a Q
    → Gives (Q false) b R
    → Gives P (or_else a b) (λ v h s. (v ≡ true) ⊎ R v h s)
unfolding or_else
Gives-or_else {Q = Q} {R = R} a b ka kb = Gives-bind a _ ka (λ first. then_else Q R first b kb)

pub same_count : (n m : ℕ) (b : Bool) → b ≡ false → b ≡ not (n == m) → n ≡ m
same_count n m b f e = ground arith
