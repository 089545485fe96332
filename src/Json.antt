-- ===== src/Json.antt =====
-- The values of a configuration, `json_spirit::Value`: what the classes of config read and change.
-- Reading them from a text and writing them is json_spirit's own, and so is a `double`.
pub mod JsonObject
pub mod JsonPath
use skweltch.Prelude.{◌≡◌, Bool, Option, some, ℤ, Bytes}

mutual
  pub data Value (Real : Type 0) : Type 0 where
    null : Value Real
    str : Bytes → Value Real
    boolean : Bool → Value Real
    int : ℤ → Value Real
    real : Real → Value Real
    array : Array Real → Value Real
    object : Object Real → Value Real

  -- A vector of values.
  pub data Array (Real : Type 0) : Type 0 where
    end_array : Array Real
    item : Value Real → Array Real → Array Real

  -- A vector of pairs.
  pub data Object (Real : Type 0) : Type 0 where
    end_object : Object Real
    pair : Bytes → Value Real → Object Real → Object Real

-- What boost::lexical_cast gives for the types that the programs use, and what they rely on: a
-- number that has been written is read back.
pub record LexicalCast (Real : Type 0) : Type 0 where
  pub of_int : ℤ → Bytes
  pub of_bool : Bool → Bytes
  pub of_real : Real → Bytes
  pub to_int : Bytes → Option ℤ
  pub to_int-of_int : (n : ℤ) → to_int (of_int n) ≡ some n
