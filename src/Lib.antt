-- ===== src/Lib.antt =====
-- The e-commerce connector of the Odoo add-ons: what is sent to a store, what is read from it, and
-- the workflow that works off an order.
--
-- Base: the Python that the sources share: Boolean tests, comprehensions, `sorted`, the dict that
-- groups values under keys, and results that may be errors.
-- Transfer: the shipments that are exported for an order (integration/tools.py: PickingLine,
-- PickingSerializer, SaleTransferSerializer). A shipment is a record that the functions return
-- changed. Ids of lines and shipments are numbers. `groupby` of odoo.tools.misc is a parameter
-- with its documented laws (Transfer.Grouped).
-- Workflow: the tasks of an order (integration/models/sale_order.py,
-- integration/models/external/integration_sale_order_sub_status_external.py,
-- integration/models/auto_workflow/integration_workflow_pipeline.py) and the state of its input
-- file, with how it is processed (integration/models/sale_integration_file.py). The database of
-- one pipeline is the record World: its tasks, its input file, the jobs that were delayed, and the
-- sales order, whose own steps are a parameter. A raise gives up the call with its writes, as the transaction does.
-- `work n` is a worker that runs at most n jobs in the order of the queue; as many jobs as the
-- order has tasks, and two more, are enough.
-- Retry: `catch_exception` of integration/tools.py, the retries of a call of the store. A retry is
-- a call of itself, so that a call is given the depth that the interpreter's stack has room for, and
-- ends with RecursionError where that is used up.
-- External: what the store reports of an order, its payments and fulfillments
-- (integration/models/external/external_order_resource.py, external_order_transaction.py and
-- external_order_fulfillment.py; the quantities of a delivery in integration/models/stock_picking.py;
-- how an order applies them in integration/models/sale_order.py). A call takes the record and
-- returns it as written, or the error that it raises. Odoo's accounting, units, bills of materials
-- and buttons are parameters (Payment.Odoo, Delivery.Stock); the button of a delivery may change the
-- other deliveries of the order and make new ones. Quantities are whole numbers.
-- Products: `TemplateHub` of integration/tools.py, the check of products before an import.
-- Shopify: the quantities that are sent for a shipment
-- (integration_shopify/shopify/resources/fulfillment_order.py); the calls themselves are not modelled.
-- Prices: `PriceList` of integration/tools.py, and the database records that its dump rewrites.
-- Mappings: the external records of a store and their mappings to the records of Odoo
-- (integration/models/mixins/integration_external_mixin.py, integration_mapping_mixin.py and
-- integration_model_mixin.py), as two tables. Jobs that are put back are listed by their key.
-- Adapters: `AdapterHub` of integration/tools.py, the clients that the processes keep, with the
-- settings of integration/models/sale_integration.py that they are built from. Python's `hash` of the
-- settings is a parameter that need not tell two settings apart.
-- Json: ExtractNode, flatten_recursive and the translated values of integration/tools.py.
-- `json.loads` is a parameter.
-- Partners: the customer and the addresses of an order
-- (integration/models/integration_res_partner_factory.py and integration_res_partner_proxy.py). Data is
-- the way from the dicts of an order to the proxies, Domain the conditions of a search, Proxy, Contact
-- and Address the handling of one proxy, Factory the whole. A value of a dict is a text or None, and an
-- empty text of a proxy is a field that is not set. Odoo's search, create and write of contacts and the
-- mappings of countries, states and languages are parameters (Partners.Odoo), with their laws. The
-- mapping that a refused customer leaves behind is told by the error, as its transaction is its own.
-- Orders: how an order of a store becomes a sales order
-- (integration/models/integration_sale_order_factory.py, with what it calls of sale_integration.py,
-- sale_order.py and sale_order_line.py). Data and Env hold the dict of an order, the sales order and what
-- the making calls; Taxes, Lines, Delivery, Extras, Vals and Create follow the methods, Tasks and
-- Input what comes of an input file, from its text to the pipeline. The contacts are those of
-- Partners, and the mappings of orders and payment methods those of Mappings. A raise gives up the call;
-- the errors that a caller catches are values (Taxes.Lookup). Amounts are whole numbers of the smallest
-- unit of the currency, so that rounding a difference leaves it. What imports master data, Odoo's taxes,
-- totals, delivery line and translations, and the order fields that a user maps are parameters (Env).
-- Methods: the methods of the workflow's tasks (integration/models/sale_order.py), with the loop that
-- validates the shipments (integration/models/stock_picking.py) and the states of an invoice
-- (integration/models/account_move.py). A shipment is told by its id and read from the order, as what
-- Odoo does when it is called may change any part of it. The fuel of the loop is the number of
-- shipments that may be validated; as Odoo may make further shipments at each, none is enough for all
-- cases, and what is shown is of the calls that end.
-- Images: which image mapping an image of a product is exported with
-- (integration/models/mixins/integration_product_external_mixin.py, ActionType and ExternalImage of
-- integration/tools.py). The mappings of one template are a table; an image is its id and its checksum.
--
-- Not modelled: names, log lines, forms and views; the database and its transactions beyond what a
-- raise undoes; the job queue and the advance payment add-on, which are other projects' code.

pub mod Base
pub mod Adapters
pub mod External
pub mod Images
pub mod Json
pub mod Mappings
pub mod Methods
pub mod Orders
pub mod Partners
pub mod Prices
pub mod Products
pub mod Retry
pub mod Shopify
pub mod Transfer
pub mod Workflow
