-- ===== src/Tuner.antt =====
-- machine/MachineTuner.cpp: the variables of a group of the tuner's configuration, and writing a value
-- for each into the configuration of the machine. Arithmetic on `double` is the record `Double`; the
-- generator of random numbers is `draw` and its state. Text of an exception is left out.
pub mod Variables
use skweltch.Prelude.{
  ℕ, zero, suc, Bool, true, false, Option, none, some, ◌++◌, Bytes, codes, equal, ◌==ℤ◌, ltb,
  if◌then◌else◌, List, [], ◌∷◌, ℤ, pos, negsuc, ◌+ℤ◌, ◌-ℤ◌,
}
use skweltch.Result.{Result, ok, threw, undefined, other_error, ◌>>=◌}
use skweltch.Json.{Value, Object, end_object, pair, LexicalCast}
use skweltch.Json.JsonObject.{get_obj, get_string, get_int, get_bool, is_object}
use skweltch.Json.JsonPath.{get_path, set_path_int}
use skweltch.Pipes.{ended, minus_one}

-- `(int)x` is not defined for every `double`.
pub record Double (Real : Type 0) : Type 0 where
  pub of_int : ℤ → Real
  pub divide : Real → Real → Real
  pub multiply : Real → Real → Real
  pub minus : Real → Real → Real
  pub to_int : Real → Result ℤ

abbrev pub is_negative : ℤ → Bool
is_negative (pos n) = false
is_negative (negsuc n) = true

-- What `tune` changes: the configuration, the generator, the member `failonerror`, the count of the
-- variables and `*varstring`, `none` for NULL.
pub record Tuning (Real Gen : Type 0) : Type 0 where
  pub config : Value Real
  pub gen : Gen
  pub fail_on_error : Bool
  pub vars : ℕ
  pub varstring : Option Bytes

module _ {Real : Type 0} where
  -- Whether a child of the configuration is a variable of the group.
  unfoldable pub is_variable : ℤ → Bytes → Value Real → Result Bool
  is_variable group key target =
      if is_object target
      then (if equal key (codes "success")
          then ok false
          else (get_bool target (codes "enabled") >>= λ enabled.
              if enabled
              then (get_int target (codes "group") minus_one >>= λ g. ok (g ==ℤ group))
              else ok false))
      else ok false

  -- `varCount`
  unfoldable pub count_variables : ℤ → Object Real → ℕ → Result ℕ
  unfolding is_variable
  count_variables group end_object vars = ok vars
  count_variables group (pair key target o) vars = is_variable group key target >>= λ counts.
      if counts then count_variables group o (suc vars) else count_variables group o vars

  unfoldable pub var_count : Value Real → ℤ → Result ℕ
  unfolding count_variables
  var_count tuner group = do o ← get_obj tuner; count_variables group o 0

  -- A bound of a variable, which has to be there.
  abbrev pub bound : Value Real → Bytes → Result ℤ
  bound target name = do
    n ← get_int target name minus_one
    if is_negative n then threw other_error else ok n

  module _ (cast : LexicalCast Real) (split : Bytes → List Bytes) (double : Double Real)
      {Gen : Type 0} (draw : ℤ → ℤ → Gen → Result (ℤ × Gen)) where
    -- The number between the bounds, for a mutation.
    unfoldable pub high_to_low : ℤ → ℤ → ℤ → ℤ → Result ℤ
    high_to_low low high mutations mutation =
        let range = double.of_int (high -ℤ low) in
        let unit = double.divide range (double.of_int mutations) in
        let sel = double.minus (double.of_int mutations) (double.of_int mutation) in
        double.to_int (double.multiply unit sel) >>= λ n. ok (n +ℤ low)

    unfoldable pub select_value : Bytes → ℤ → ℤ → ℤ → ℤ → Gen → Result (ℤ × Gen)
    unfolding high_to_low
    select_value select low high mutations mutation gen =
        if equal select (codes "hightolow")
        then (high_to_low low high mutations mutation >>= λ n. ok (n, gen))
        else if equal select (codes "random")
        then draw low high gen
        else threw other_error

    -- `*varstring += …`
    abbrev pub add_value : ℤ → Bytes → Bytes
    add_value n [] = cast.of_int n
    add_value n (c ∷ cs) = (c ∷ cs) ++ (9 ∷ cast.of_int n)

    abbrev pub show_value : ℤ → Option Bytes → Option Bytes
    show_value n none = none
    show_value n (some s) = some (add_value n s)

    -- What is changed with a value that is chosen.
    abbrev pub with_value : Bool → ℤ → Gen → Value Real → Tuning Real Gen → Tuning Real Gen
    with_value fail val gen config t = record {
      config = config;
      gen = gen;
      fail_on_error = fail;
      vars = suc t.vars;
      varstring = show_value val t.varstring;
    }

    -- A variable of type `int` is given its value, and any variable.
    unfoldable pub tune_int :
        ℤ → ℤ → Bytes → Value Real → Bool → Tuning Real Gen → Result (Tuning Real Gen)
    unfolding select_value
    tune_int mutations mutation key target fail t = do
      low ← bound target (codes "low")
      high ← bound target (codes "high")
      var ← get_string target (codes "var")
      select ← get_string target (codes "select")
      o ← ended (get_path cast split t.config key)
      (val, gen) ← select_value select low high mutations mutation t.gen
      config ← ended (set_path_int cast split t.config key var val)
      ok (with_value fail val gen config t)

    unfoldable pub tune_variable :
        ℤ → ℤ → Bytes → Value Real → Tuning Real Gen → Result (Tuning Real Gen)
    unfolding tune_int
    tune_variable mutations mutation key target t = do
      type ← get_string target (codes "type")
      fail ← get_bool target (codes "fail")
      if equal type (codes "int")
          then tune_int mutations mutation key target fail t
          else threw other_error

    -- The loop over the tuner's configuration.
    unfoldable pub tune_variables :
        ℤ → ℤ → ℤ → Object Real → Tuning Real Gen → Result (Tuning Real Gen)
    unfolding is_variable tune_variable
    tune_variables group mutations mutation end_object t = ok t
    tune_variables group mutations mutation (pair key target o) t =
        is_variable group key target >>= λ counts.
        if counts
        then (tune_variable mutations mutation key target t >>= λ u.
            tune_variables group mutations mutation o u)
        else tune_variables group mutations mutation o t

    -- `tune`, of the members and of what the caller gives; what it has changed and what it returns.
    unfoldable pub tune :
        Value Real
        → ℤ
        → ℤ
        → Value Real
        → Gen
        → Bool
        → Option Bytes
        → Result (Tuning Real Gen × Bool)
    unfolding tune_variables
    tune tuner group mutation config gen fail_on_error varstring = do
      mutations ← get_int tuner (codes "mutations") minus_one
      if is_negative mutations then threw other_error else (do
        o ← get_obj tuner
        t ← tune_variables group mutations mutation o (record {
          config = config;
          gen = gen;
          fail_on_error = fail_on_error;
          vars = 0;
          varstring = varstring;
        })
        ok (t, ltb 0 t.vars))
