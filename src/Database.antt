-- ===== src/Database.antt =====
-- prisma/schema.prisma: the tables that the services share, behind the queries that they make.
pub mod Rows
pub mod Tables
pub mod Memory
use spark_ln_address.Prelude.{
  Text, Option, ℕ, ◌*◌, if◌then◌else◌, not, is_empty, all, is_digit, some, none, decimal, ◌&&◌, [],
}
use spark_ln_address.Database.Memory.{memory_table}
use spark_ln_address.Database.Rows.{
  User, LightningName, AuthNonce, Invoice, FlashnetOrder, FlashnetWebhookEvent, RefundCase,
}
use spark_ln_address.Database.Tables.{Table}

-- What the services take of MySQL, through Prisma: a table for each model, and decimal numbers.
-- `decimal` is `new Prisma.Decimal(text)`, with `none` where the constructor throws.
pub record Storage : Type 1 where
  pub Money : Type 0
  pub decimal_of : Text → Option Money
  pub div : Money → Money → Money
  pub users : Table User (λ r. r.id)
  pub names : Table LightningName (λ r. r.id)
  pub nonces : Table AuthNonce (λ r. r.id)
  pub invoices : Table Invoice (λ r. r.id)
  pub orders : Table (FlashnetOrder Money) (λ r. r.id)
  pub events : Table FlashnetWebhookEvent (λ r. r.id)
  pub cases : Table RefundCase (λ r. r.id)

-- The contents of the database at one moment.
pub record Db (S : Storage) : Type 0 where
  pub users : S.users.Rows
  pub names : S.names.Rows
  pub nonces : S.nonces.Rows
  pub invoices : S.invoices.Rows
  pub orders : S.orders.Rows
  pub events : S.events.Rows
  pub cases : S.cases.Rows

-- A storage to run the services on: tables as lists, and decimal numbers as fractions.
abbrev pub memory : Storage
memory = record {
  Money = ℕ × ℕ;
  decimal_of = λ t. if not (is_empty t) && all is_digit t then some (decimal t, 1) else none;
  div = λ a b. (a.0 * b.1, a.1 * b.0);
  users = memory_table (λ r. r.id);
  names = memory_table (λ r. r.id);
  nonces = memory_table (λ r. r.id);
  invoices = memory_table (λ r. r.id);
  orders = memory_table (λ r. r.id);
  events = memory_table (λ r. r.id);
  cases = memory_table (λ r. r.id);
}

abbrev pub empty_db : Db memory
empty_db = record {
  users = [];
  names = [];
  nonces = [];
  invoices = [];
  orders = [];
  events = [];
  cases = [];
}
