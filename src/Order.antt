-- ===== src/Order.antt =====
-- include/order.hpp, and the `Trade` of include/order_book.hpp.
use leviathan_matching_engin.Prelude.{Bool, true, false, ℕ, ◌+◌, ◌-◌, ◌%◌, ◌^◌, leb, if◌then◌else◌}

-- One more than the largest `uint64_t`.
abbrev pub uint64_limit : ℕ
uint64_limit = 2 ^ 64

-- `-=` on a `uint64_t`.
abbrev pub sub_uint64 : ℕ → ℕ → ℕ
sub_uint64 m n = if leb n m then m - n else m + uint64_limit - n

pub data Side : Type 0 where
  buy sell : Side

pub data OrderType : Type 0 where
  limit market ioc fok : OrderType

-- The tests of `submitOrder` on the order's type: its flags `skip_price_check` (MARKET) and
-- `never_rest` (all but LIMIT), and whether it is FOK.
abbrev pub is_market : OrderType → Bool
is_market market = true
is_market _ = false

abbrev pub is_limit : OrderType → Bool
is_limit limit = true
is_limit _ = false

abbrev pub is_fok : OrderType → Bool
is_fok fok = true
is_fok _ = false

pub record Order (P : Type 0) : Type 0 where
  pub id : ℕ
  pub side : Side
  pub price : P
  pub quantity : ℕ
  pub timestamp : ℕ
  pub type : OrderType

-- `nextTimestamp`: the value drawn and the counter after `fetch_add`.
abbrev pub next_timestamp : ℕ → ℕ × ℕ
next_timestamp counter = (counter, (counter + 1) % uint64_limit)

-- The constructor of `Order`, on the counter; it returns the counter after the draw too.
abbrev pub make_order : {P : Type 0} → ℕ → ℕ → Side → P → ℕ → OrderType → Order P × ℕ
make_order counter id side price quantity type =
    let (drawn, counter') = next_timestamp counter in
    (
      record {
        id = id;
        side = side;
        price = price;
        quantity = quantity;
        timestamp = drawn;
        type = type;
      },
      counter',
    )

pub record Trade (P : Type 0) : Type 0 where
  pub buy_order_id : ℕ
  pub sell_order_id : ℕ
  pub price : P
  pub quantity : ℕ
  pub timestamp : ℕ

-- The other side of the book.
abbrev pub opposite : Side → Side
opposite buy = sell
opposite sell = buy
