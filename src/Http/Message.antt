-- ===== src/Http/Message.antt =====
-- ui/header.hpp and ui/request.hpp.
use skweltch.Prelude.{ℕ, List, Bytes}

pub record Header : Type 0 where
  pub name : Bytes
  pub value : Bytes

pub record Request : Type 0 where
  pub method : Bytes
  pub uri : Bytes
  pub http_version_major : ℕ
  pub http_version_minor : ℕ
  pub headers : List Header
