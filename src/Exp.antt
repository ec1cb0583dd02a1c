-- ===== src/Exp.antt =====
-- The expressions that the decoder hands over, and the accessors of miniexp.h and miniexp.cpp (under
-- packages/pagecraft/native/djvu/upstream/libdjvu). An expression is a tree: no code that is modelled
-- over trees changes a pair that something else refers to. `object` is any object that is not a string,
-- such as a number with a fraction; `dummy` is `miniexp_dummy`, which has the tag of a symbol.
pub mod Symbols
pub mod Number
pub mod Text
pub mod Printer
pub mod Reader
pub mod Lists
mod Tests
use readflex.Prelude.{ℕ, zero, suc, Bool, true, false, Bytes, ℤ, pos}

pub data Exp : Type 0 where
  nil : Exp
  cons : Exp → Exp → Exp
  number : ℤ → Exp
  symbol : Bytes → Exp
  string : Bytes → Exp
  object : Exp
  dummy : Exp

unfoldable pub consp : Exp → Bool
consp (cons _ _) = true
consp _ = false

unfoldable pub symbolp : Exp → Bool
symbolp (symbol _) = true
symbolp dummy = true
symbolp _ = false

unfoldable pub numberp : Exp → Bool
numberp (number _) = true
numberp _ = false

unfoldable pub car : Exp → Exp
car (cons a _) = a
car _ = nil

unfoldable pub cdr : Exp → Exp
cdr (cons _ d) = d
cdr _ = nil

-- `while (--n >= 0 && consp(l)) l = cdr(l); return car(l);`
unfoldable pub nth : ℕ → Exp → Exp
unfolding car
nth zero l = car l
nth (suc n) (cons _ d) = nth n d
nth (suc n) l = car l

-- "Assume that the expression is indeed a number": the adapter tests `numberp` before it.
unfoldable pub to_int : Exp → ℤ
to_int (number n) = n
to_int _ = pos 0
