-- ===== src/PaperBroker/Turns.antt =====
-- platforms/paper_broker.py: the cash, shares and options of the fills and the assignments of a
-- turn of the wheel.
use mathlib.Core.Path.{ap₂}
use wheelbot.Models.{Order, OptionType, Symbol, buy_to_close, call, sell_to_open, put}
use wheelbot.PaperBroker.{Paper, after, is_text}
use wheelbot.Common.Ratio.{Ratio, whole}
use wheelbot.Common.{String, false, none, some, true, ◌≡◌, ap, refl, ◌∙◌, arith}
use wheelbot.PaperBroker.Fills.{
  add_shares, apply_fill, assign, is_zero, lot, remove_shares, average, contract_of, deliver,
  drop_option, on_option,
}
use wheelbot.Common.Dict.{get, pop, set_item, get-set_item, pop-set_item}
use wheelbot.Common.Int.{leb_ℤ, pos, ℤ, ◌*ℤ◌, ◌+ℤ◌, ◌-ℤ◌, ltb_ℤ, +ℤ_parts, -ℤ_parts}

-- An order that sells `c`, an option of the type on the symbol at the strike.
pub record IsShort (o : Order) (symbol : Symbol) (c : String) (t : OptionType) (strike : ℤ)
    : Type 0 where
  pub sells : o.order_type ≡ sell_to_open
  pub of_symbol : o.symbol ≡ symbol
  pub of_contract : o.contract_symbol ≡ some c
  pub has_name : is_text (some c) ≡ true
  pub of_type : o.option_type ≡ some t
  pub at_strike : o.strike ≡ some strike

-- A short option that is bought back at another price leaves the difference of the two premiums,
-- and no option.
abbrev buy_back : Order → Order
buy_back o = record o { order_type = buy_to_close }

apply_fill-contract :
    (o : Order) (c : String) (p : ℤ) (b : Paper)
    → contract_of o ≡ some c
    → apply_fill o p b ≡ on_option o.order_type o c p b
unfolding apply_fill
apply_fill-contract o c p b e = rw (e, apply_fill) refl

contract_lem :
    (o : Order) (c : String)
    → o.contract_symbol ≡ some c
    → is_text (some c) ≡ true
    → contract_of o ≡ some c
contract_lem o c e h = rw (e, h) refl

pub sold :
    (o : Order) (s : Symbol) (c : String) (t : OptionType) (k p : ℤ) (b : Paper)
    → IsShort o s c t k
    → apply_fill o p b
      ≡ record b { cash = b.cash +ℤ p *ℤ lot o; open_options = set_item c o b.open_options }
sold o s c t k p b h =
    apply_fill-contract o c p b (contract_lem o c h.of_contract h.has_name)
    ∙ ap (λ x. on_option x o c p b) h.sells

bought_back :
    (o : Order) (s : Symbol) (c : String) (t : OptionType) (k p : ℤ) (b : Paper)
    → IsShort o s c t k
    → apply_fill (buy_back o) p b
      ≡ record b { cash = b.cash -ℤ p *ℤ lot o; open_options = pop c b.open_options }
bought_back o s c t k p b h =
    apply_fill-contract (buy_back o) c p b (contract_lem o c h.of_contract h.has_name)

assign-deliver :
    (o : Order) (c : String) (k : ℤ) (b : Paper)
    → get c b.open_options ≡ some o
    → o.strike ≡ some k
    → after (assign c b) b ≡ drop_option c (deliver o k b)
unfolding assign
assign-deliver o c k b g e = rw (g, e, assign) refl

deliver-put :
    (o : Order) (k : ℤ) (b : Paper)
    → o.option_type ≡ some put
    → deliver o k b ≡ add_shares o.symbol (lot o) k (record b { cash = b.cash -ℤ k *ℤ lot o })
deliver-put o k b e = rw e refl

deliver-call :
    (o : Order) (k : ℤ) (b : Paper)
    → o.option_type ≡ some call
    → deliver o k b ≡ remove_shares o.symbol (lot o) (record b { cash = b.cash +ℤ k *ℤ lot o })
deliver-call o k b e = rw e refl

-- The shares that a put brings to an account that holds none.
abbrev pub bought : Order → (strike : ℤ) → ℤ × Ratio
bought o k = (pos 0 +ℤ lot o, average (pos 0, whole (pos 0)) (lot o) k (pos 0 +ℤ lot o))

add_shares-none :
    (s : Symbol) (n p : ℤ) (b : Paper)
    → get s b.stock ≡ none
    → is_zero (pos 0 +ℤ n) ≡ false
    → add_shares s n p b ≡ record b {
      stock = set_item s (pos 0 +ℤ n, average (pos 0, whole (pos 0)) n p (pos 0 +ℤ n)) b.stock;
    }
unfolding add_shares
add_shares-none s n p b e z = rw (e, z, add_shares) refl

remove_shares-all :
    (s : Symbol) (n : ℤ) (b : Paper) (held : ℤ × Ratio)
    → get s b.stock ≡ some held
    → leb_ℤ (held.0 -ℤ n) (pos 0) ≡ true
    → remove_shares s n b ≡ record b { stock = pop s b.stock }
unfolding remove_shares
remove_shares-all s n b held e z = rw (e, z, remove_shares) refl

assigned_put :
    (o : Order) (s : Symbol) (c : String) (k : ℤ) (b : Paper)
    → IsShort o s c put k
    → get c b.open_options ≡ some o
    → get s b.stock ≡ none
    → is_zero (pos 0 +ℤ lot o) ≡ false
    → after (assign c b) b ≡ record b {
      cash = b.cash -ℤ k *ℤ lot o;
      stock = set_item s (bought o k) b.stock;
      open_options = pop c b.open_options;
    }
assigned_put o s c k b h g empty some_shares =
    let paid : Paper = record b { cash = b.cash -ℤ k *ℤ lot o } in
    assign-deliver o c k b g h.at_strike
    ∙ ap (drop_option c) (
        deliver-put o k b h.of_type
        ∙ ap (λ x. add_shares x (lot o) k paid) h.of_symbol
        ∙ add_shares-none s (lot o) k paid empty some_shares)

assigned_call :
    (o : Order) (s : Symbol) (c : String) (k : ℤ) (b : Paper) (held : ℤ × Ratio)
    → IsShort o s c call k
    → get c b.open_options ≡ some o
    → get s b.stock ≡ some held
    → leb_ℤ (held.0 -ℤ lot o) (pos 0) ≡ true
    → after (assign c b) b ≡ record b {
      cash = b.cash +ℤ k *ℤ lot o;
      stock = pop s b.stock;
      open_options = pop c b.open_options;
    }
assigned_call o s c k b held h g got gone =
    let paid : Paper = record b { cash = b.cash +ℤ k *ℤ lot o } in
    assign-deliver o c k b g h.at_strike
    ∙ ap (drop_option c) (
        deliver-call o k b h.of_type
        ∙ ap (λ x. remove_shares x (lot o) paid) h.of_symbol
        ∙ remove_shares-all s (lot o) paid held got gone)

-- An option that is sold at one price and bought back at another leaves the difference of the two
-- premiums on the lot, and nothing else.
apply_fill-buy_back :
    (o : Order) (s : Symbol) (c : String) (t : OptionType) (k p p' : ℤ) (b : Paper)
    → IsShort o s c t k
    → get c b.open_options ≡ none
    → apply_fill (buy_back o) p' (apply_fill o p b)
      ≡ record b { cash = (b.cash +ℤ p *ℤ lot o) -ℤ p' *ℤ lot o }
apply_fill-buy_back o s c t k p p' b h none_open =
    ap (apply_fill (buy_back o) p') (sold o s c t k p b h)
    ∙ bought_back o s c t k p' _ h
    ∙ ap (λ os. record b { cash = (b.cash +ℤ p *ℤ lot o) -ℤ p' *ℤ lot o; open_options = os })
        (pop-set_item c o b.open_options none_open)

-- The fill of an option's sale at a price, and its assignment.
abbrev pub fill_and_assign : Order → (contract : String) → (price : ℤ) → Paper → Paper
fill_and_assign o c p b = let sold_at = apply_fill o p b in after (assign c sold_at) sold_at

pub put_half :
    (o : Order) (s : Symbol) (c : String) (k p : ℤ) (b : Paper)
    → IsShort o s c put k
    → get c b.open_options ≡ none
    → get s b.stock ≡ none
    → is_zero (pos 0 +ℤ lot o) ≡ false
    → fill_and_assign o c p b ≡ record b {
      cash = (b.cash +ℤ p *ℤ lot o) -ℤ k *ℤ lot o;
      stock = set_item s (bought o k) b.stock;
    }
put_half o s c k p b h none_open empty some_shares =
    ap (λ x. after (assign c x) x) (sold o s c put k p b h)
    ∙ assigned_put o s c k _ h (get-set_item c o b.open_options) empty some_shares
    ∙ ap
        (λ os. record b {
          cash = (b.cash +ℤ p *ℤ lot o) -ℤ k *ℤ lot o;
          stock = set_item s (bought o k) b.stock;
          open_options = os;
        })
        (pop-set_item c o b.open_options none_open)

call_half :
    (o : Order) (s : Symbol) (c : String) (k p : ℤ) (b : Paper) (held : ℤ × Ratio)
    → IsShort o s c call k
    → get c b.open_options ≡ none
    → get s b.stock ≡ some held
    → leb_ℤ (held.0 -ℤ lot o) (pos 0) ≡ true
    → fill_and_assign o c p b
      ≡ record b { cash = (b.cash +ℤ p *ℤ lot o) +ℤ k *ℤ lot o; stock = pop s b.stock }
call_half o s c k p b held h none_open got gone =
    ap (λ x. after (assign c x) x) (sold o s c call k p b h)
    ∙ assigned_call o s c k _ held h (get-set_item c o b.open_options) got gone
    ∙ ap
        (λ os. record b {
          cash = (b.cash +ℤ p *ℤ lot o) +ℤ k *ℤ lot o;
          stock = pop s b.stock;
          open_options = os;
        })
        (pop-set_item c o b.open_options none_open)

pub lot_live : (q : ℤ) → ltb_ℤ (pos 0) q ≡ true → is_zero (pos 0 +ℤ pos 100 *ℤ q) ≡ false
unfolding ◌+ℤ◌ ◌*ℤ◌
lot_live q h = ground arith

lot_gone : (l : ℤ) → leb_ℤ ((pos 0 +ℤ l) -ℤ l) (pos 0) ≡ true
lot_gone l = ground (arith, +ℤ_parts (pos 0) l, -ℤ_parts (pos 0 +ℤ l) l)

-- Both halves of a turn, from the fills on.
pub fill_and_assign-turn :
    (o o' : Order) (s : Symbol) (c c' : String) (k k' p p' : ℤ) (b : Paper)
    → IsShort o s c put k
    → IsShort o' s c' call k'
    → o'.quantity ≡ o.quantity
    → ltb_ℤ (pos 0) o.quantity ≡ true
    → get c b.open_options ≡ none
    → get c' b.open_options ≡ none
    → get s b.stock ≡ none
    → fill_and_assign o' c' p' (fill_and_assign o c p b)
      ≡ record b { cash = (((b.cash +ℤ p *ℤ lot o) -ℤ k *ℤ lot o) +ℤ p' *ℤ lot o) +ℤ k' *ℤ lot o }
fill_and_assign-turn o o' s c c' k k' p p' b h h' same_lot positive no_put no_call empty =
    ap (fill_and_assign o' c' p')
      (put_half o s c k p b h no_put empty (lot_live o.quantity positive))
    ∙ call_half o' s c' k' p' _ (bought o k) h' no_call (get-set_item s (bought o k) b.stock)
        (ap (λ q. leb_ℤ ((pos 0 +ℤ lot o) -ℤ pos 100 *ℤ q) (pos 0)) same_lot ∙ lot_gone (lot o))
    ∙ ap₂
        (λ q st. record b {
          cash =
              (((b.cash +ℤ p *ℤ lot o) -ℤ k *ℤ lot o) +ℤ p' *ℤ (pos 100 *ℤ q))
              +ℤ k' *ℤ (pos 100 *ℤ q);
          stock = st;
        })
        same_lot (pop-set_item s (bought o k) b.stock empty)
