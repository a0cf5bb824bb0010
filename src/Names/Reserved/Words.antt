-- ===== src/Names/Reserved/Words.antt =====
-- The word lists of src/common/reserved-usernames.ts.
use spark_ln_address.Prelude.{List, [], ◌∷◌, ◌++◌, Text, codes}

abbrev pub brands : List Text
brands = codes "guap" ∷ codes "tmrw" ∷ codes "tomorrow" ∷ codes "guapwallet" ∷ []

abbrev pub roles : List Text
roles =
    codes "admin"
    ∷ codes "app"
    ∷ codes "bot"
    ∷ codes "care"
    ∷ codes "help"
    ∷ codes "hq"
    ∷ codes "info"
    ∷ codes "news"
    ∷ codes "official"
    ∷ codes "ops"
    ∷ codes "pay"
    ∷ codes "payments"
    ∷ codes "security"
    ∷ codes "staff"
    ∷ codes "support"
    ∷ codes "team"
    ∷ codes "wallet"
    ∷ []

abbrev pub standalone : List Text
standalone =
    codes "abuse"
    ∷ codes "admin"
    ∷ codes "administrator"
    ∷ codes "billing"
    ∷ codes "ceo"
    ∷ codes "compliance"
    ∷ codes "contact"
    ∷ codes "customerservice"
    ∷ codes "customersupport"
    ∷ codes "flashnet"
    ∷ codes "help"
    ∷ codes "helpdesk"
    ∷ codes "hostmaster"
    ∷ codes "info"
    ∷ codes "legal"
    ∷ codes "moderator"
    ∷ codes "no-reply"
    ∷ codes "noreply"
    ∷ codes "official"
    ∷ codes "operator"
    ∷ codes "orchestra"
    ∷ codes "payments"
    ∷ codes "postmaster"
    ∷ codes "privacy"
    ∷ codes "refund"
    ∷ codes "refunds"
    ∷ codes "root"
    ∷ codes "security"
    ∷ codes "staff"
    ∷ codes "superuser"
    ∷ codes "support"
    ∷ codes "sysadmin"
    ∷ codes "system"
    ∷ codes "team"
    ∷ codes "verify"
    ∷ codes "verification"
    ∷ codes "webmaster"
    ∷ []

abbrev pub fillers : List Text
fillers =
    codes "the"
    ∷ codes "real"
    ∷ codes "my"
    ∷ codes "true"
    ∷ codes "original"
    ∷ codes "verified"
    ∷ []

-- The words of the three lists; one that two of them hold stands twice.
abbrev pub default_reserved_usernames : List Text
default_reserved_usernames = brands ++ (roles ++ standalone)
