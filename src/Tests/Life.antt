-- ===== src/Tests/Life.antt =====
-- A table grants resource that is created on the database in memory, and a keyspace grants resource
-- that is created and deleted.
use terraform_provider_scyll.Base.{refl, none, some, List}
use terraform_provider_scyll.Cql.{resource_path}
use terraform_provider_scyll.Provider.Framework.{known, unknown}
use terraform_provider_scyll.Provider.TableGrants.{TableGrantsResourceModel}
use terraform_provider_scyll.Provider.TableGrants.Admitted.{table_admitted-reconciles}
use terraform_provider_scyll.Provider.TableGrants.Lifecycle.{table_life, Lifecycle-IsManaged}
use terraform_provider_scyll.Provider.KeyspaceGrants.{KeyspaceGrantsResourceModel}
use terraform_provider_scyll.Provider.KeyspaceGrants.Laws.{keyspace_delete-exact}
use terraform_provider_scyll.Provider.KeyspaceGrants.Admitted.{keyspace_admitted-reconciles}
use terraform_provider_scyll.Provider.KeyspaceGrants.Lifecycle.{
  keyspace_life, keyspace_life-IsManaged,
}
use terraform_provider_scyll.Provider.Lifecycle.{
  World, GrantsResource, IsPlanned, creates, deletes, Lifecycle, here, next, IsManaged,
}
use terraform_provider_scyll.Tests.Ascii.{ascii, in_order}
use terraform_provider_scyll.Tests.Memory.{
  Held, memory_session, memory_database, memory-IsAccepting,
}
use terraform_provider_scyll.Tests.Fixtures.{
  cluster, before, bindings, app_IsRole, held_before, shop_orders_IsNamed,
}
use terraform_provider_scyll.Tests.Resources.{
  planned, planned-bindings, table_model, keyspace_model, lacks_period, shop_IsNamed,
}
use terraform_provider_scyll.Tests.Schema.{table_model-IsAdmitted, keyspace_model-IsAdmitted}

abbrev orders : GrantsResource (List Held)
orders = table_life memory_session in_order in_order in_order cluster "shop" "orders"

abbrev shop : GrantsResource (List Held)
shop = keyspace_life memory_session in_order in_order in_order cluster "shop"

abbrev unmanaged : (Model : Type 0) → World Model (List Held)
unmanaged Model = record { managed = none; database = before }

abbrev orders_created : World TableGrantsResourceModel (List Held)
orders_created = record {
  managed = some (table_model (known "shop.orders") planned);
  database = (orders.create (table_model unknown planned) before).1;
}

abbrev shop_created : World KeyspaceGrantsResourceModel (List Held)
shop_created = record {
  managed = some (keyspace_model (known "shop") planned);
  database = (shop.create (keyspace_model unknown planned) before).1;
}

abbrev shop_deleted : World KeyspaceGrantsResourceModel (List Held)
shop_deleted = record {
  managed = none;
  database = (shop.delete (keyspace_model (known "shop") planned) shop_created.database).1;
}

abbrev orders_planned : IsPlanned (List Held) orders planned bindings
orders_planned = record {
  id = unknown;
  admitted = table_model-IsAdmitted;
  converts = planned-bindings;
  roles = (app_IsRole, tt);
}

abbrev shop_planned : IsPlanned (List Held) shop planned bindings
shop_planned = record {
  id = unknown;
  admitted = keyspace_model-IsAdmitted;
  converts = planned-bindings;
  roles = (app_IsRole, tt);
}

orders_life : Lifecycle (List Held) orders (unmanaged TableGrantsResourceModel) orders_created
unfolding resource_path
orders_life =
    let (state, _, _) =
      table_admitted-reconciles memory_session memory_database in_order in_order in_order cluster
        refl "shop" "orders" lacks_period shop_orders_IsNamed before memory-IsAccepting unknown
        planned bindings table_model-IsAdmitted planned-bindings (app_IsRole, tt)
        (λ r p. held_before r "data/shop/orders" p) in
    next here (creates planned bindings orders_planned _ refl state)

Lifecycle-IsManaged_example : IsManaged memory_session memory_database orders before orders_created
unfolding resource_path
Lifecycle-IsManaged_example =
    Lifecycle-IsManaged memory_session memory_database in_order in_order in_order cluster refl
      "shop" "orders" lacks_period shop_orders_IsNamed memory-IsAccepting before orders_created
      (λ r p. held_before r "data/shop/orders" p) orders_life

shop_started : Lifecycle (List Held) shop (unmanaged KeyspaceGrantsResourceModel) shop_created
unfolding resource_path
shop_started =
    let (state, _, _) =
      keyspace_admitted-reconciles memory_session memory_database in_order in_order in_order cluster
        refl "shop" lacks_period shop_IsNamed before memory-IsAccepting unknown planned bindings
        keyspace_model-IsAdmitted planned-bindings (app_IsRole, tt)
        (λ r p. held_before r "data/shop" p) in
    next here (creates planned bindings shop_planned _ refl state)

shop-IsManaged : IsManaged memory_session memory_database shop before shop_created
unfolding resource_path
shop-IsManaged =
    keyspace_life-IsManaged memory_session memory_database in_order in_order in_order cluster refl
      "shop" lacks_period shop_IsNamed memory-IsAccepting before shop_created
      (λ r p. held_before r "data/shop" p) shop_started

shop_life : Lifecycle (List Held) shop (unmanaged KeyspaceGrantsResourceModel) shop_deleted
shop_life =
    let (returned, _) =
      keyspace_delete-exact memory_session memory_database in_order in_order in_order cluster refl
        "shop" lacks_period shop_IsNamed shop_created.database memory-IsAccepting (known "shop")
        planned shop-IsManaged.writable in
    next shop_started (deletes _ refl returned)

keyspace_life-IsManaged_example : IsManaged memory_session memory_database shop before shop_deleted
unfolding resource_path
keyspace_life-IsManaged_example =
    keyspace_life-IsManaged memory_session memory_database in_order in_order in_order cluster refl
      "shop" lacks_period shop_IsNamed memory-IsAccepting before shop_deleted
      (λ r p. held_before r "data/shop" p) shop_life
